-- ===== src/Invitation/Proof/Window.antt =====
-- When a proof of possession is taken (internal/invitation/join_proof.go).
use mathlib.Core.Path.{subst}
use prappser_spaces.Base.{
  String, ◌≡◌, refl, Bool, true, false, not, ◌&&◌, ◌||◌, Option, none, some, [], ◌∷◌, ◌==◌, ltb,
  arith, eq_iff,
}
use prappser_spaces.Base.Int.{ℤ, pos, negsuc, ◌+ℤ◌, ◌≤ℤ◌, ltb_ℤ, eqb_ℤ}
use prappser_spaces.Value.{Fields}
use prappser_spaces.Result.{Result, ok, guard, ◌>>◌, invalid_proof}
use prappser_spaces.Invitation.{Instant}
use prappser_spaces.Invitation.Proof.{
  ProofLibrary, JoinProofClaims, public_key_size, has_size, is_after, instant_of, seconds_later,
  is_fresh, is_complete, claims_of, check_proof, check_parsed, verify_join_proof,
  join_proof_skew_sec, join_proof_ttl_sec,
}

not-before : (a b : ℤ) (x : Bool) → not (ltb_ℤ b a || x) ≡ true → a ≤ℤ b
not-before (pos a) (pos b) x h = ground arith
not-before (pos a) (negsuc b) x h = ground arith
not-before (negsuc a) (pos b) x h = ground arith
not-before (negsuc a) (negsuc b) x h = ground arith

conjuncts : (a b c : Bool) → (a && b && c) ≡ true → (a ≡ true) × (b ≡ true) × (c ≡ true)
conjuncts a b c h = ground arith

-- A fresh proof was issued at most 30 seconds after the clock, and at most 90 before it.
fresh_window :
    (now : Instant) (t : ℤ)
    → is_fresh now t ≡ true
    → (t ≤ℤ now.unix +ℤ join_proof_skew_sec)
      × (now.unix ≤ℤ (t +ℤ join_proof_ttl_sec) +ℤ join_proof_skew_sec)
unfolding is_fresh
fresh_window now t h =
    let c =
      conjuncts (not (eqb_ℤ t (pos 0)))
        (not (is_after (instant_of t) (seconds_later now join_proof_skew_sec)))
        (not (
          is_after now
            (seconds_later (seconds_later (instant_of t) join_proof_ttl_sec) join_proof_skew_sec)))
        h in
    (
      not-before t (now.unix +ℤ join_proof_skew_sec)
          (eqb_ℤ t (now.unix +ℤ join_proof_skew_sec) && ltb now.nanos 0) c.1,
      not-before now.unix ((t +ℤ join_proof_ttl_sec) +ℤ join_proof_skew_sec)
          (eqb_ℤ now.unix ((t +ℤ join_proof_ttl_sec) +ℤ join_proof_skew_sec) && ltb 0 now.nanos)
          c.2,
    )

guarded :
    {c : JoinProofClaims} {k : Result JoinProofClaims} (b : Bool)
    → (guard b (invalid_proof ∷ []) >> k) ≡ ok c
    → (b ≡ true) × (k ≡ ok c)
guarded true e = (refl, e)
guarded false e = absurd (ground arith)

ok_inj : {a b : JoinProofClaims} → ok a ≡ ok b → a ≡ b
ok_inj e = cc

-- What a taken proof says.
abbrev pub IsProven : ProofLibrary → String → String → Instant → JoinProofClaims → Type 0
IsProven l jws expected now c =
    (is_complete c ≡ true)
    × (l.is_signed jws c.device_public_key ≡ true)
    × (c.invite_id ≡ expected)
    × (c.issued_at ≤ℤ now.unix +ℤ join_proof_skew_sec)
    × (now.unix ≤ℤ (c.issued_at +ℤ join_proof_ttl_sec) +ℤ join_proof_skew_sec)

module _ (l : ProofLibrary) where
  checked :
      (jws expected : String) (now : Instant) (c c' : JoinProofClaims)
      → check_proof l jws expected now c ≡ ok c'
      → IsProven l jws expected now c'
  unfolding check_proof
  checked jws expected now c c' e =
      let g = guarded (is_complete c) e in
      let h = guarded (has_size public_key_size (l.key_length c.device_public_key)) g.1 in
      let i = guarded (l.is_signed jws c.device_public_key) h.1 in
      let j = guarded (c.invite_id == expected) i.1 in
      let k = guarded (is_fresh now c.issued_at) j.1 in
      let same : c ≡ c' = ok_inj k.1 in
      let w = fresh_window now c.issued_at k.0 in
      subst (IsProven l jws expected now) same
        (g.0, i.0, (eq_iff c.invite_id expected).0 j.0, w.0, w.1)

  parsed :
      (jws expected : String) (now : Instant) (o : Option Fields) (c : JoinProofClaims)
      → check_parsed l jws expected now o ≡ ok c
      → IsProven l jws expected now c
  parsed jws expected now none c e = absurd (ground arith)
  parsed jws expected now (some m) c e = checked jws expected now (claims_of m) c e

  -- A proof that is taken has every claim, is signed by the device that it names, is for the
  -- invitation that it is presented with, and was issued from 90 seconds before the clock, in whole
  -- seconds, to 30 seconds after it.
  pub accepted_proof-IsProven :
      (jws expected : String) (now : Instant) (c : JoinProofClaims)
      → verify_join_proof l jws expected now ≡ ok c
      → IsProven l jws expected now c
  unfolding verify_join_proof
  accepted_proof-IsProven jws expected now c e =
      parsed jws expected now (l.parse_unverified jws) c e

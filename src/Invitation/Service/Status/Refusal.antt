-- ===== src/Invitation/Service/Status/Refusal.antt =====
-- What CheckInvitationUsage says of an invitation, beside what Join does with it
-- (internal/invitation/invitation_service.go).
use mathlib.Core.Path.{subst}
use prappser_spaces.Base.{
  String, ◌≡◌, refl, sym, ap, ◌∙◌, Bool, true, false, not, ◌&&◌, Option, none, some, [], ◌⊎◌, inl,
  inr, arith, Bool-cases, if◌then◌else◌,
}
use prappser_spaces.Result.{Result, ok, err, Error, guard}
use prappser_spaces.Invitation.{Invitation, InviteTokenClaims, is_past, is_max_uses_reached}
use prappser_spaces.Invitation.Tokens.{validate_token}
use prappser_spaces.Invitation.Proof.{JoinProofClaims, verify_join_proof}
use prappser_spaces.Invitation.Repository.{Table, get_invitation_by_id, has_been_used_by}
use prappser_spaces.Invitation.Run.{
  State, Service, Run, after, ◌>>=◌, ◌>>◌, give, lift, ask, query, caught,
}
use prappser_spaces.Invitation.Service.Joiner.{
  check_terms, check_invitation, check_vouchers, check_row, check_proven, check_claims, check_join,
}
use prappser_spaces.Invitation.Service.Join.{join_checked, join}
use prappser_spaces.Invitation.Service.Status.{
  CheckInvitationResult, expired_answer, found_answer, usable, promotable, already_member,
  already_joined, used_up, row_known, says, is_guest, member_answer, use_answer, row_answer,
  answer_of, token_answer, check_invitation_usage,
}

-- An operation that fails and leaves the state alone.
abbrev pub Refuses : {S A : Type 0} → (S → Result A × S) → S → Type 0
Refuses m s = (e : Error) × (m s ≡ (err e, s))

module _ {World : Type 0} {A B : Type 0} (s : State World) where
  -- One that fails at its first part, and one whose first part only looks.
  first-Refuses : (m : Run World A) (f : A → Run World B) → Refuses m s → Refuses (m >>= f) s
  first-Refuses m f (e, h) = (e, rw h refl)

  lift-Refuses :
      (r : Result A) (f : A → Run World B) → ((a : A) → Refuses (f a) s) → Refuses (lift r >>= f) s
  lift-Refuses (ok a) f h = h a
  lift-Refuses (err e) f h = (e, refl)

-- A query leaves the state alone.
module _ {World : Type 0} {A : Type 0} where
  quiet :
      (f : Option Error) (q : Table → Result A) (s : State World)
      → query f q s ≡ ((query f q s).0, s)
  quiet (some e) q s = refl
  quiet none q s = refl

  seen :
      {B : Type 0} (m : Run World A) (f : A → Run World B) (s : State World) (a : A)
      → m s ≡ (ok a, s)
      → Refuses (f a) s
      → Refuses (m >>= f) s
  seen m f s a h (e, p) = (e, ap (λ x. after x f) h ∙ p)

  answers :
      {B : Type 0} (r : Result A × State World) (f : A → Run World B) (b : B)
      → (after r f).0 ≡ ok b
      → (a : A) × (s : State World) × ((f a s).0 ≡ ok b)
  answers (ok a, s) f b h = (a, s, h)
  answers (err e, s) f b h = absurd (ground arith)

-- An answer that the invitation can be used, or that the account is a member.
abbrev Tells : CheckInvitationResult → Type 0
Tells answer = (answer.valid ≡ true) ⊎ (answer.is_member ≡ true)

told : (a b : CheckInvitationResult) → ok a ≡ ok b → Tells a → Tells b
told a b e t = let q : a ≡ b = cc in subst Tells q t

either_member :
    (r : CheckInvitationResult) (b : Bool) → Tells (if b then promotable r else already_member r)
either_member r true = inr refl
either_member r false = inr refl

untold :
    (answer : CheckInvitationResult)
    → answer.valid ≡ false
    → answer.is_member ≡ false
    → Tells answer
    → ⊥
untold answer v m (inl t) = ground arith
untold answer v m (inr t) = ground arith

-- A row that cannot be joined by: it is not there, or it is used up.
Unusable : Result Invitation → Type 0
Unusable (err e) = Unit
Unusable (ok i) = is_max_uses_reached i ≡ true

module _ {World : Type 0} (o : Service World) where
  member-Tells :
      (r : CheckInvitationResult) (i : Invitation) (key : String) (s : State World)
      (answer : CheckInvitationResult)
      → (member_answer o r i key s).0 ≡ ok answer
      → Tells answer
  unfolding member_answer
  member-Tells r i key s answer e =
      let b = i.grants_space_use && is_guest (o.others.get_user key s.world) in
      told (if b then promotable r else already_member r) answer e (either_member r b)

  -- The last part of the answer, for an account that used the invitation before or not.
  rest-Tells :
      (r : CheckInvitationResult) (i : Invitation) (key : String) (s : State World)
      (answer : CheckInvitationResult) (used member : Bool)
      → ((if used && member
            then give (already_joined r)
            else if member
            then member_answer o r i key
            else give (usable r))
          s).0
        ≡ ok answer
      → Tells answer
  rest-Tells r i key s answer true true e = told (already_joined r) answer e (inr refl)
  rest-Tells r i key s answer false true e = member-Tells r i key s answer e
  rest-Tells r i key s answer true false e = told (usable r) answer e (inl refl)
  rest-Tells r i key s answer false false e = told (usable r) answer e (inl refl)

  use-Tells :
      (r : CheckInvitationResult) (i : Invitation) (key : String) (s : State World)
      (answer : CheckInvitationResult)
      → (use_answer o r i key s).0 ≡ ok answer
      → Tells answer
  unfolding use_answer
  use-Tells r i key s answer e =
      let q =
        answers (query o.faults.on_used (has_been_used_by i.id key) s)
          (λ used.
            (caught (ask (o.others.is_member i.application_id key)) >>= λ m.
            (if used && says false m
              then give (already_joined r)
              else if says false m
              then member_answer o r i key
              else give (usable r))))
          answer e in
      rest-Tells r i key q.1 answer q.0
        (says false (o.others.is_member i.application_id key q.1.world)) q.2

  row-usable :
      (i : Invitation) (key : String) (s : State World) (answer : CheckInvitationResult)
      → (row_answer o i key s).0 ≡ ok answer
      → answer.valid ≡ false
      → answer.is_member ≡ false
      → is_max_uses_reached i ≡ true
  unfolding row_answer
  row-usable i key s answer e v m = elim (Bool-cases (is_max_uses_reached i)) [
    | inl h ↦ h
    | inr h ↦ absurd (
        untold answer v m (
          use-Tells (row_known i (o.others.get_application i.application_id s.world)) i key s answer
            (sym (
                ap
                  (λ b.
                    ((if b
                        then give (
                            used_up
                              (row_known i (o.others.get_application i.application_id s.world)))
                        else use_answer o
                            (row_known i (o.others.get_application i.application_id s.world)) i key)
                      s).0)
                  h)
              ∙ e)))
  ]

  -- Joins that stop at the row, or before it.
  used-Refuses :
      (i : Invitation) (key : String) (s : State World)
      → is_max_uses_reached i ≡ true
      → Refuses (check_invitation o i key) s
  unfolding check_invitation
  used-Refuses i key s h =
      first-Refuses s (lift (guard (not (is_max_uses_reached i)) [])) (λ _. check_terms o i key)
        ([], ap (λ b. lift (guard (not b) []) s) h)

  expired-Refuses :
      (c : InviteTokenClaims) (proof assertion binding name : String) (s : State World)
      → is_past o.now.unix c.expires_at ≡ true
      → Refuses (check_claims o c proof assertion binding name) s
  unfolding check_claims
  expired-Refuses c proof assertion binding name s h =
      lift-Refuses s (verify_join_proof o.proofs proof c.invite_id o.now)
        (check_proven o c assertion binding name)
        (λ p.
          first-Refuses s (lift (guard (not (is_past o.now.unix c.expires_at)) []))
            (λ _. check_row o c assertion binding name p)
            ([], ap (λ b. lift (guard (not b) []) s) h))

  fetched-Refuses :
      (c : InviteTokenClaims) (assertion binding name : String) (s : State World)
      (p : JoinProofClaims) (r : Result Invitation)
      → query o.faults.on_get (get_invitation_by_id c.invite_id) s ≡ (r, s)
      → Unusable r
      → Refuses (check_row o c assertion binding name p) s
  unfolding Unusable check_invitation
  fetched-Refuses c assertion binding name s p (err e) h u =
      first-Refuses s (query o.faults.on_get (get_invitation_by_id c.invite_id))
        (λ i.
          check_invitation o i p.public_key
          >> check_vouchers o i p (o.normalize_device_name name) assertion binding)
        (e, h)
  fetched-Refuses c assertion binding name s p (ok i) h u =
      seen (query o.faults.on_get (get_invitation_by_id c.invite_id))
        (λ i.
          check_invitation o i p.public_key
          >> check_vouchers o i p (o.normalize_device_name name) assertion binding)
        s i h
        (first-Refuses s (check_invitation o i p.public_key)
          (λ _. check_vouchers o i p (o.normalize_device_name name) assertion binding)
          (used-Refuses i p.public_key s u))

  row-Refuses :
      (c : InviteTokenClaims) (proof assertion binding name : String) (s : State World)
      → Unusable (query o.faults.on_get (get_invitation_by_id c.invite_id) s).0
      → Refuses (check_claims o c proof assertion binding name) s
  unfolding check_claims
  row-Refuses c proof assertion binding name s u =
      lift-Refuses s (verify_join_proof o.proofs proof c.invite_id o.now)
        (check_proven o c assertion binding name)
        (λ p.
          lift-Refuses s (guard (not (is_past o.now.unix c.expires_at)) [])
            (λ _. check_row o c assertion binding name p)
            (λ _.
              fetched-Refuses c assertion binding name s p
                (query o.faults.on_get (get_invitation_by_id c.invite_id) s).0
                (quiet o.faults.on_get (get_invitation_by_id c.invite_id) s) u))

  answer-Unusable :
      (key : String) (r : Result Invitation) (s : State World) (answer : CheckInvitationResult)
      → (answer_of o key r s).0 ≡ ok answer
      → answer.valid ≡ false
      → answer.is_member ≡ false
      → Unusable r
  unfolding Unusable
  answer-Unusable key (err e) s answer h v m = tt
  answer-Unusable key (ok i) s answer h v m = row-usable i key s answer h v m

  -- A join with the claims of a token that was said not to be usable.
  token-Refuses :
      (key proof assertion binding name : String) (c : InviteTokenClaims) (s : State World)
      (answer : CheckInvitationResult)
      → (token_answer o key (ok c) s).0 ≡ ok answer
      → answer.valid ≡ false
      → answer.is_member ≡ false
      → Refuses (check_claims o c proof assertion binding name) s
  token-Refuses key proof assertion binding name c s answer e v m =
      elim (Bool-cases (is_past o.now.unix c.expires_at)) [
        | inl h ↦ expired-Refuses c proof assertion binding name s h
        | inr h ↦ row-Refuses c proof assertion binding name s (
            answer-Unusable key (query o.faults.on_get (get_invitation_by_id c.invite_id) s).0
              (query o.faults.on_get (get_invitation_by_id c.invite_id) s).1 answer
              (sym (ap (λ b. ((if b then give expired_answer else found_answer o key c) s).0) h)
                ∙ e)
              v m)
      ]

  checks-Refuse :
      (token key proof assertion binding name : String) (r : Result InviteTokenClaims)
      (s : State World) (answer : CheckInvitationResult)
      → validate_token o token ≡ r
      → (token_answer o key r s).0 ≡ ok answer
      → answer.valid ≡ false
      → answer.is_member ≡ false
      → Refuses (check_join o token proof assertion binding name) s
  unfolding check_join
  checks-Refuse token key proof assertion binding name (err x) s answer t e v m =
      first-Refuses s (lift (validate_token o token))
        (λ c. check_claims o c proof assertion binding name) (x, ap (λ r. (r, s)) t)
  checks-Refuse token key proof assertion binding name (ok c) s answer t e v m =
      seen (lift (validate_token o token)) (λ c. check_claims o c proof assertion binding name) s c
        (ap (λ r. (r, s)) t) (token-Refuses key proof assertion binding name c s answer e v m)

  -- Where CheckInvitationUsage answers, for whatever account, that the invitation cannot be used
  -- and the account is no member, any join by that token fails at the same moment and changes
  -- nothing.
  pub unusable-Refuses :
      (token key proof assertion binding name : String) (s : State World)
      (answer : CheckInvitationResult)
      → (check_invitation_usage o token key s).0 ≡ ok answer
      → answer.valid ≡ false
      → answer.is_member ≡ false
      → Refuses (join o token proof assertion binding name) s
  unfolding check_invitation_usage join
  unusable-Refuses token key proof assertion binding name s answer e v m =
      first-Refuses s (check_join o token proof assertion binding name) (λ j. join_checked o j)
        (checks-Refuse token key proof assertion binding name (validate_token o token) s answer refl
          e v m)

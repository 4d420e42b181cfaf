-- ===== src/Invitation/Proof.antt =====
-- The proof of possession that a join carries (internal/invitation/join_proof.go).
pub mod Window
use prappser_spaces.Base.{
  ℕ, String, Bool, true, false, not, ◌&&◌, ◌||◌, Option, none, some, List, [], ◌∷◌, ◌==◌, ltb, eqb,
  if◌then◌else◌,
}
use prappser_spaces.Base.Int.{ℤ, pos, ◌+ℤ◌, ltb_ℤ, eqb_ℤ}
use prappser_spaces.Value.{Value, Fields, str, float64, read, as_string}
use prappser_spaces.Value.Number.{Float, truncate}
use prappser_spaces.Result.{Result, ok, err, guard, ◌>>=◌, ◌>>◌, invalid_proof}
use prappser_spaces.Invitation.{Instant}

-- joinProofTTLSec and joinProofSkewSec
abbrev pub join_proof_ttl_sec : ℤ
join_proof_ttl_sec = pos 60

abbrev pub join_proof_skew_sec : ℤ
join_proof_skew_sec = pos 30

-- ed25519.PublicKeySize
abbrev pub public_key_size : ℕ
public_key_size = 32

-- The libraries: `parse_unverified` is the parser of golang-jwt, `key_length` how many bytes base64
-- decodes a text to, `is_signed` whether jwt.Parse takes the proof as signed under EdDSA by a key.
pub record ProofLibrary : Type 0 where
  pub parse_unverified : String → Option Fields
  pub key_length : String → Option ℕ
  pub is_signed : String → String → Bool

pub record JoinProofClaims : Type 0 where
  pub public_key : String
  pub device_public_key : String
  pub username : String
  pub invite_id : String
  pub issued_at : ℤ

abbrev or_empty : Option String → String
or_empty none = ""
or_empty (some s) = s

-- v.(string), where any other value reads as ""
abbrev pub text_claim : String → Fields → String
text_claim key m = or_empty (as_string (read key m))

abbrev pub seconds_of : Value → ℤ
seconds_of (float64 x) = truncate x
seconds_of _ = pos 0

unfoldable pub claims_of : Fields → JoinProofClaims
claims_of m = record {
  public_key = text_claim "publicKey" m;
  device_public_key = text_claim "devicePublicKey" m;
  username = text_claim "username" m;
  invite_id = text_claim "inviteId" m;
  issued_at = seconds_of (read "iat" m);
}

abbrev has_size : ℕ → Option ℕ → Bool
has_size n none = false
has_size n (some k) = eqb k n

-- t.After(u)
abbrev pub is_after : Instant → Instant → Bool
is_after t u = ltb_ℤ u.unix t.unix || (eqb_ℤ t.unix u.unix && ltb u.nanos t.nanos)

-- t.Add(n * time.Second)
abbrev pub seconds_later : Instant → ℤ → Instant
seconds_later t n = record t { unix = t.unix +ℤ n }

-- time.Unix(n, 0)
abbrev pub instant_of : ℤ → Instant
instant_of n = record { unix = n; nanos = 0 }

-- The checks of a proof's time.
unfoldable pub is_fresh : Instant → ℤ → Bool
is_fresh now issued_at =
    not (eqb_ℤ issued_at (pos 0))
    && not (is_after (instant_of issued_at) (seconds_later now join_proof_skew_sec))
    && not (
        is_after now (
          seconds_later (seconds_later (instant_of issued_at) join_proof_ttl_sec)
            join_proof_skew_sec))

unfoldable pub is_complete : JoinProofClaims → Bool
is_complete c =
    not (c.public_key == "" || c.device_public_key == "" || c.username == "" || c.invite_id == "")

module _ (l : ProofLibrary) where
  -- The checks of the claims, once they are read.
  unfoldable pub check_proof : String → String → Instant → JoinProofClaims → Result JoinProofClaims
  unfolding is_fresh is_complete
  check_proof jws expected now c = do
    guard (is_complete c) (invalid_proof ∷ [])
    guard (has_size public_key_size (l.key_length c.device_public_key)) (invalid_proof ∷ [])
    guard (l.is_signed jws c.device_public_key) (invalid_proof ∷ [])
    guard (c.invite_id == expected) (invalid_proof ∷ [])
    guard (is_fresh now c.issued_at) (invalid_proof ∷ [])
    ok c

  abbrev pub check_parsed : String → String → Instant → Option Fields → Result JoinProofClaims
  check_parsed jws expected now none = err (invalid_proof ∷ [])
  check_parsed jws expected now (some m) = check_proof jws expected now (claims_of m)

  -- verifyJoinProof
  unfoldable pub verify_join_proof : String → String → Instant → Result JoinProofClaims
  unfolding claims_of check_proof
  verify_join_proof jws expected now = check_parsed jws expected now (l.parse_unverified jws)

-- ===== src/Invitation.antt =====
-- Invitations and their tokens' claims (internal/invitation/invitation.go), and the parts of an
-- account and of a device that joining reads (internal/user/user.go).
pub mod Repository
pub mod Proof
pub mod Options
pub mod Run
pub mod Tokens
pub mod Service
pub mod History
use prappser_spaces.Base.{
  ℕ, String, Bool, true, false, not, ◌*◌, ◌-◌, Option, none, some, List, suc,
}
use prappser_spaces.Base.Int.{ℤ, pos, negsuc, ◌+ℤ◌, leb_ℤ, ltb_ℤ}

pub record Invitation : Type 0 where
  pub id : String
  pub application_id : String
  pub created_by_public_key : String
  pub role : String
  pub max_uses : Option ℤ
  pub expires_at : Option ℤ
  pub used_count : ℤ
  pub created_at : ℤ
  pub space_id : Option String
  pub grants_membership : Bool
  pub grants_identity : Bool
  pub grants_space_use : Bool
  pub membership_duration_hours : Option ℤ
  pub member_public_keys : List String

pub record InvitationUse : Type 0 where
  pub id : String
  pub invitation_id : String
  pub user_public_key : String
  pub used_at : ℤ

pub record InvitationResponse : Type 0 where
  pub id : String
  pub token : String
  pub expires_at : Option ℤ
  pub created_at : ℤ
  pub grants_space_use : Bool

pub record InviteTokenClaims : Type 0 where
  pub invite_id : String
  pub space_url : String
  pub issued_at : ℤ
  pub expires_at : Option ℤ

pub record JoinResult : Type 0 where
  pub application_id : String
  pub member_id : String
  pub is_new_member : Bool
  pub last_event_id : String

-- A time.Time: whole seconds since 1970, and the nanoseconds of the next one.
pub record Instant : Type 0 where
  pub unix : ℤ
  pub nanos : ℕ

-- t.Add(h * time.Hour).Unix(), where the product does not overflow.
abbrev pub hours_later : ℤ → ℤ → ℤ
hours_later t (pos h) = t +ℤ pos (h * 3600)
hours_later t (negsuc h) = t +ℤ negsuc (suc h * 3600 - 1)

-- IsExpired
abbrev pub is_past : ℤ → Option ℤ → Bool
is_past now none = false
is_past now (some exp) = ltb_ℤ exp now

abbrev pub reaches : Option ℤ → ℤ → Bool
reaches none count = false
reaches (some limit) count = leb_ℤ limit count

-- IsMaxUsesReached
unfoldable pub is_max_uses_reached : Invitation → Bool
is_max_uses_reached i = reaches i.max_uses i.used_count

-- The fields of a user that joining reads.
pub record Account : Type 0 where
  pub public_key : String
  pub username : String
  pub role : String
  pub avatar_storage_id : Option String
  pub binding_iat : ℤ

pub record Device : Type 0 where
  pub user_public_key : String
  pub revoked_at : Option ℤ

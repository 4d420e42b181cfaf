-- ===== src/Invitation/Service/Status.antt =====
-- What the join screen is told of an invitation (GetInviteInfo, GetInviteIconStorageID and
-- CheckInvitationUsage in internal/invitation/invitation_service.go).
pub mod Refusal
use Prim.Native.String.{slice, len}
use text.Mathlib.Text.{starts_with}
use prappser_spaces.Base.{
  String, Bool, true, false, not, ◌&&◌, Option, none, some, [], ◌==◌, if◌then◌else◌,
}
use prappser_spaces.Base.Int.{ℤ}
use prappser_spaces.Result.{Result, ok, err}
use prappser_spaces.Application.{Application}
use prappser_spaces.Invitation.{
  Invitation, InviteTokenClaims, Account, is_past, is_max_uses_reached,
}
use prappser_spaces.Invitation.Repository.{get_invitation_by_id, has_been_used_by}
use prappser_spaces.Invitation.Run.{Service, Run, ◌>>=◌, ◌>>◌, give, lift, ask, query, caught}
use prappser_spaces.Invitation.Service.Gates.{signup_blocked}
use prappser_spaces.Invitation.Tokens.{validate_token}

pub record InviteInfo : Type 0 where
  pub invite_id : String
  pub application_name : String
  pub application_icon : Option String
  pub creator_username : String
  pub role : String
  pub expires_at : Option ℤ
  pub is_expired : Bool
  pub is_valid : Bool
  pub grants_membership : Bool
  pub grants_identity : Bool
  pub membership_duration_hours : Option ℤ

pub record CheckInvitationResult : Type 0 where
  pub valid : Bool
  pub already_used : Bool
  pub is_member : Bool
  pub is_expired : Bool
  pub max_uses_reached : Bool
  pub application_name : String
  pub role : String
  pub message : String
  pub grants_membership : Bool
  pub grants_identity : Bool

abbrev is_ok {ℓ} : {A : Type ℓ} → Result A → Bool
is_ok (ok a) = true
is_ok (err e) = false

abbrev name_or : String → Result Application → String
name_or missing (ok app) = app.name
name_or missing (err e) = missing

abbrev icon_of : Result Application → Option String
icon_of (ok app) = app.icon
icon_of (err e) = none

abbrev username_or : String → Result (Option Account) → String
username_or missing (ok (some acct)) = acct.username
username_or missing (ok none) = missing
username_or missing (err e) = missing

abbrev pub is_guest : Result (Option Account) → Bool
is_guest (ok (some acct)) = acct.role == "guest"
is_guest (ok none) = false
is_guest (err e) = false

abbrev pub says : Bool → Result Bool → Bool
says b (ok answer) = answer
says b (err e) = b

-- The answer before the row is read.
abbrev pub no_answer : CheckInvitationResult
no_answer = record {
  valid = false;
  already_used = false;
  is_member = false;
  is_expired = false;
  max_uses_reached = false;
  application_name = "";
  role = "";
  message = "";
  grants_membership = true;
  grants_identity = true;
}

abbrev pub expired_answer : CheckInvitationResult
expired_answer = record no_answer { is_expired = true; message = "This invitation has expired" }

abbrev pub usable : CheckInvitationResult → CheckInvitationResult
usable r = record r { valid = true; message = "Invitation is valid and ready to use" }

abbrev pub promotable : CheckInvitationResult → CheckInvitationResult
promotable r = record (usable r) { is_member = true }

abbrev pub already_member : CheckInvitationResult → CheckInvitationResult
already_member r = record r {
  is_member = true;
  message = "You are already a member of this application";
}

abbrev pub already_joined : CheckInvitationResult → CheckInvitationResult
already_joined r = record r {
  already_used = true;
  is_member = true;
  message = "You have already joined this application";
}

abbrev pub used_up : CheckInvitationResult → CheckInvitationResult
used_up r = record r {
  max_uses_reached = true;
  message = "This invitation has reached its maximum number of uses";
}

-- The answer as far as the row and the application give it.
abbrev pub row_known : Invitation → Result Application → CheckInvitationResult
row_known i app = record no_answer {
  application_name = name_or "" app;
  role = i.role;
  grants_membership = i.grants_membership;
  grants_identity = i.grants_identity;
}

module _ {World : Type 0} (o : Service World) where
  unfoldable pub invite_info : InviteTokenClaims → Invitation → Run World InviteInfo
  invite_info c i = do
    app ← caught (ask (o.others.get_application i.application_id))
    creator ← caught (ask (o.others.get_user i.created_by_public_key))
    blocked ← caught (signup_blocked o i)
    give (record {
      invite_id = i.id;
      application_name = name_or "Unknown Application" app;
      application_icon = icon_of app;
      creator_username = username_or "Unknown User" creator;
      role = i.role;
      expires_at = c.expires_at;
      is_expired = is_past o.now.unix c.expires_at;
      is_valid = not (is_past o.now.unix c.expires_at) && not (is_max_uses_reached i);
      grants_membership = i.grants_membership;
      grants_identity = i.grants_identity && is_ok blocked;
      membership_duration_hours = i.membership_duration_hours;
    })

  abbrev unknown_info : InviteTokenClaims → InviteInfo
  unknown_info c = record {
    invite_id = c.invite_id;
    application_name = "";
    application_icon = none;
    creator_username = "";
    role = "";
    expires_at = none;
    is_expired = is_past o.now.unix c.expires_at;
    is_valid = false;
    grants_membership = true;
    grants_identity = true;
    membership_duration_hours = none;
  }

  abbrev info_of : InviteTokenClaims → Result Invitation → Run World InviteInfo
  info_of c (err e) = give (unknown_info c)
  info_of c (ok i) = invite_info c i

  -- GetInviteInfo
  unfoldable pub get_invite_info : String → Run World InviteInfo
  unfolding invite_info
  get_invite_info token = do
    c ← lift (validate_token o token)
    r ← caught (query o.faults.on_get (get_invitation_by_id c.invite_id))
    info_of c r

  abbrev stored_icon : Option String → Result String
  stored_icon none = err []
  stored_icon (some icon) =
      if starts_with icon "storage:" then ok (slice icon 8 (len icon)) else err []

  -- GetInviteIconStorageID
  unfoldable pub get_invite_icon_storage_id : String → Run World (String × String)
  get_invite_icon_storage_id token = do
    c ← lift (validate_token o token)
    i ← query o.faults.on_get (get_invitation_by_id c.invite_id)
    app ← ask (o.others.get_application i.application_id)
    icon ← lift (stored_icon app.icon)
    give (icon, i.application_id)

  -- A member may still use an invitation that makes a guest a user of the space.
  unfoldable pub member_answer :
      CheckInvitationResult → Invitation → String → Run World CheckInvitationResult
  member_answer answer i key = do
    acct ← caught (ask (o.others.get_user key))
    give (if i.grants_space_use && is_guest acct then promotable answer else already_member answer)

  unfoldable pub use_answer :
      CheckInvitationResult → Invitation → String → Run World CheckInvitationResult
  unfolding member_answer
  use_answer answer i key = do
    used ← query o.faults.on_used (has_been_used_by i.id key)
    r ← caught (ask (o.others.is_member i.application_id key))
    (if used && says false r
        then give (already_joined answer)
        else if says false r
        then member_answer answer i key
        else give (usable answer))

  unfoldable pub row_answer : Invitation → String → Run World CheckInvitationResult
  unfolding use_answer
  row_answer i key = do
    app ← caught (ask (o.others.get_application i.application_id))
    (if is_max_uses_reached i
        then give (used_up (row_known i app))
        else use_answer (row_known i app) i key)

  abbrev pub answer_of : String → Result Invitation → Run World CheckInvitationResult
  answer_of key (err e) =
      give (record no_answer { message = "Invitation not found or has been revoked" })
  answer_of key (ok i) = row_answer i key

  -- What an unexpired token's row says.
  abbrev pub found_answer : String → InviteTokenClaims → Run World CheckInvitationResult
  found_answer key c =
      caught (query o.faults.on_get (get_invitation_by_id c.invite_id)) >>= λ r. answer_of key r

  abbrev pub token_answer : String → Result InviteTokenClaims → Run World CheckInvitationResult
  token_answer key (err e) =
      give (record no_answer { message = "Invalid or malformed invitation link" })
  token_answer key (ok c) =
      if is_past o.now.unix c.expires_at then give expired_answer else found_answer key c

  -- CheckInvitationUsage
  unfoldable pub check_invitation_usage : String → String → Run World CheckInvitationResult
  unfolding row_answer
  check_invitation_usage token key = token_answer key (validate_token o token)

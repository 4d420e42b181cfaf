-- ===== src/Scenarios/Guests.antt =====
-- Invitations (internal/invitation): a new account that joins by a single-use invitation.
use prappser_spaces.Base.{List, ◌≡◌, refl, true, false, none, some, [], ◌∷◌, arith, ◌==◌, find}
use prappser_spaces.Base.Int.{ℤ, pos, ◌≤ℤ◌}
use prappser_spaces.Value.{Fields, empty, field, str, float64, read, as_string}
use prappser_spaces.Value.Number.{truncate}
use prappser_spaces.Result.{ok, err}
use prappser_spaces.Application.{User, owner, role_of, role_eq, is_grantable}
use prappser_spaces.Invitation.{
  Invitation, InviteTokenClaims, InvitationResponse, JoinResult, Account, is_max_uses_reached,
}
use prappser_spaces.Invitation.Repository.{
  create_invitation_row, get_invitation_by_id, increment_use_count, update_row, has_use_left,
  claimed, record_use,
}
use prappser_spaces.Invitation.Repository.Bounds.{AllBounded}
use prappser_spaces.Invitation.Run.{State, Others, Service, no_faults}
use prappser_spaces.Invitation.Proof.{
  JoinProofClaims, claims_of, check_proof, is_fresh, is_complete, verify_join_proof,
}
use prappser_spaces.Invitation.Tokens.{validate_token}
use prappser_spaces.Invitation.Service.Gates.{signup_blocked, can_promote, promote}
use prappser_spaces.Invitation.Service.Joiner.{
  check_invitation, check_vouchers, check_join, check_account,
}
use prappser_spaces.Invitation.Service.Join.{
  claim, after_create, enroll, ensure_first_device, added_event, add_member, enter, return_claim,
  join,
}
use prappser_spaces.Invitation.Service.Join.Once.{Spent, join-spends_once}
use prappser_spaces.Invitation.Repository.Uses.{count_of}
use prappser_spaces.Invitation.Proof.Window.{IsProven, accepted_proof-IsProven}
use prappser_spaces.Invitation.Options.{CreateInvitationOptions}
use prappser_spaces.Invitation.Service.{create_invitation}
use prappser_spaces.Invitation.Service.Created.Stored.{Stored, created-IsSound}
use prappser_spaces.Invitation.History.{joining, serve_all, uses_bounded}
use prappser_spaces.Invitation.Service.Status.{
  CheckInvitationResult, row_answer, check_invitation_usage,
}
use prappser_spaces.Invitation.Service.Status.Refusal.{Refuses, unusable-Refuses}
use mathlib.Core.Path.{subst}

-- The accounts that exist are the state of the other components.
abbrev others : Others (List Account)
others = record {
  get_application = λ id w. err [];
  get_member = λ id key w. ok none;
  is_member = λ id key w. ok false;
  move_guard = λ id key writes w. ok tt;
  get_user = λ key w. ok (find (λ a. a.public_key == key) w);
  get_device = λ key w. ok none;
  list_devices = λ key w. ok [];
  count_users = λ w. ok (pos 1);
  roster_allowed = λ acct d w. ok false;
  create_user = λ acct w. (ok tt, acct ∷ w);
  update_user_role = λ key role w. (ok tt, w);
  ensure_device = λ key owner name w. (ok tt, w);
  verify_admission = λ key device binding assertion name w. err [];
  produce_event = λ e w. (ok e, w);
}

abbrev invite_claims : Fields
invite_claims =
    field "id" (str "i1") (field "iat" (float64 (record { num = pos 1000; scale = 0 })) empty)

abbrev proof_claims : Fields
proof_claims = field "publicKey" (str "k") (
    field "devicePublicKey" (str "k") (
      field "username" (str "Ann") (
        field "inviteId" (str "i1")
          (field "iat" (float64 (record { num = pos 1010; scale = 0 })) empty))))

abbrev service : Service (List Account)
service = record {
  single_use_signup = true;
  max_accounts = pos 0;
  external_url = "";
  others = others;
  proofs = record {
    parse_unverified = λ t. some proof_claims;
    key_length = λ k. some 32;
    is_signed = λ jws k. true;
  };
  parse_token = λ t. some invite_claims;
  sign_token = λ m. ok "token";
  verify_assertion = λ a device key. err [];
  normalize_device_name = λ n. none;
  invite_id = "i2";
  event_id = "e1";
  use_id = "u1";
  now = record { unix = pos 1020; nanos = 0 };
  faults = no_faults;
}

abbrev invitation : Invitation
invitation = record {
  id = "i1";
  application_id = "a";
  created_by_public_key = "owner";
  role = "member";
  max_uses = some (pos 1);
  expires_at = none;
  used_count = pos 0;
  created_at = pos 1000;
  space_id = none;
  grants_membership = true;
  grants_identity = true;
  grants_space_use = false;
  membership_duration_hours = none;
  member_public_keys = [];
}

abbrev start : State (List Account)
start = record {
  table = record { invitations = invitation ∷ []; uses = [] };
  world = [];
  held_claim = false;
}

abbrev first_claims : InviteTokenClaims
first_claims = record { invite_id = "i1"; space_url = ""; issued_at = pos 1000; expires_at = none }

abbrev joined : JoinResult
joined = record { application_id = "a"; member_id = ""; is_new_member = true; last_event_id = "e1" }

one_use : (limit : ℤ) → some (pos 1) ≡ some limit → pos 0 ≤ℤ limit
one_use limit e = let q : pos 1 ≡ limit = cc in subst (λ k. pos 0 ≤ℤ k) q (ground arith)

start-AllBounded : AllBounded start.table
start-AllBounded = record { each = (record { counted = ground arith; within = one_use }, tt) }

first_token : validate_token service "t" ≡ ok first_claims
unfolding validate_token truncate read as_string
first_token = refl

first_join : (join service "t" "p" "" "" "" start).0 ≡ ok joined
unfolding join check_join check_account enter return_claim enroll ensure_first_device add_member
    claim after_create added_event check_invitation check_vouchers validate_token verify_join_proof
    check_proof claims_of is_fresh is_complete signup_blocked can_promote promote
    get_invitation_by_id increment_use_count update_row has_use_left claimed record_use role_of
    is_grantable is_max_uses_reached truncate read as_string
first_join = refl

join-spends_once_example :
    Spent "i1"
      (count_of "i1" start.table.invitations)
      joined
      (join service "t" "p" "" "" "" start).1.table
join-spends_once_example =
    join-spends_once service "t" "p" "" "" "" first_claims start joined first_token refl
      start-AllBounded first_join

abbrev accepted : JoinProofClaims
accepted = record {
  public_key = "k";
  device_public_key = "k";
  username = "Ann";
  invite_id = "i1";
  issued_at = pos 1010;
}

accepted_first : verify_join_proof service.proofs "p" "i1" service.now ≡ ok accepted
unfolding verify_join_proof check_proof claims_of is_fresh is_complete truncate read as_string
accepted_first = refl

accepted_proof-IsProven_example : IsProven service.proofs "p" "i1" service.now accepted
accepted_proof-IsProven_example =
    accepted_proof-IsProven service.proofs "p" "i1" service.now accepted accepted_first

uses_bounded_example :
    AllBounded
      (serve_all
        ((service, joining "t" "p" "" "" "") ∷ (service, joining "t" "p" "" "" "") ∷ [])
        start).table
uses_bounded_example =
    uses_bounded ((service, joining "t" "p" "" "" "") ∷ (service, joining "t" "p" "" "" "") ∷ [])
      start start-AllBounded

-- The owner makes an invitation for two hours that grants an identity.
abbrev host : User
host = record {
  public_key = "owner";
  role = "owner";
  space_id = "";
  device_public_key = "owner";
  agent = false;
}

abbrev options : CreateInvitationOptions
options = record {
  application_id = "a";
  role = "";
  max_uses = none;
  expires_in_hours = some (pos 2);
  space_url = "https://space";
  grants_membership = none;
  grants_identity = none;
  grants_space_use = none;
  membership_duration_hours = none;
  member_public_keys = [];
}

abbrev managed : Service (List Account)
managed = record service {
  others = record others {
    get_member = λ id key w. ok (
        some (record {
          id = "m";
          application_id = "a";
          role = owner;
          public_key = "owner";
          display_name = none;
          avatar_storage_id = none;
          expires_at = none;
        }));
  };
}

abbrev answer : InvitationResponse
answer = record {
  id = "i2";
  token = "token";
  expires_at = some (pos 8220);
  created_at = pos 1020;
  grants_space_use = false;
}

first_creation : (create_invitation managed host options start).0 ≡ ok answer
unfolding create_invitation role_eq is_grantable role_of create_invitation_row
first_creation = refl

created-IsSound_example :
    Stored managed host options start.table answer (create_invitation managed host options start).1
created-IsSound_example = created-IsSound managed host options start answer first_creation

-- The invitation once its only use is taken.
abbrev taken : State (List Account)
taken = record start {
  table = record { invitations = record invitation { used_count = pos 1 } ∷ []; uses = [] };
}

abbrev told : CheckInvitationResult
told = record {
  valid = false;
  already_used = false;
  is_member = false;
  is_expired = false;
  max_uses_reached = true;
  application_name = "";
  role = "member";
  message = "This invitation has reached its maximum number of uses";
  grants_membership = true;
  grants_identity = true;
}

first_check : (check_invitation_usage service "t" "k" taken).0 ≡ ok told
unfolding check_invitation_usage row_answer validate_token truncate read as_string
    get_invitation_by_id is_max_uses_reached
first_check = refl

unusable-Refuses_example : Refuses (join service "t" "p" "" "" "") taken
unusable-Refuses_example =
    unusable-Refuses service "t" "k" "p" "" "" "" taken told first_check refl refl

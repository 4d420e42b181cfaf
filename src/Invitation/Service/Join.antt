-- ===== src/Invitation/Service/Join.antt =====
-- Join (internal/invitation/invitation_service.go).
pub mod Claims
pub mod Once
pub mod Keeps
use prappser_spaces.Base.{
  String, Bool, true, false, not, ◌&&◌, ◌||◌, Option, none, some, List, [], ◌∷◌, ◌==◌, any,
  if◌then◌else◌,
}
use prappser_spaces.Base.Int.{ℤ, pos, eqb_ℤ}
use prappser_spaces.Value.{Fields, empty, field, str, int, int64}
use prappser_spaces.Result.{
  Result, ok, err, guard, is_pq_unique, not_for_member, membership_not_granted, invalid_invite_role,
  invalid_assertion, identity_not_granted, account_key_not_proven, device_conflict,
}
use prappser_spaces.Application.{Member, role_of, is_grantable}
use prappser_spaces.Event.{Event, member_added}
use prappser_spaces.Invitation.{
  Invitation, InvitationUse, JoinResult, Account, Device, hours_later, is_past, is_max_uses_reached,
}
use prappser_spaces.Invitation.Options.{is_empty, text_of}
use prappser_spaces.Invitation.Tokens.{validate_token}
use prappser_spaces.Invitation.Proof.{JoinProofClaims, verify_join_proof}
use prappser_spaces.Invitation.Repository.{
  get_invitation_by_id, increment_use_count, release_use, record_use, has_been_used_by,
}
use prappser_spaces.Invitation.Run.{
  State, Service, Run, ◌>>=◌, ◌>>◌, give, lift, ask, call, query, change, hold, caught, ignored,
  deferred,
}
use prappser_spaces.Invitation.Service.Gates.{is_absent, can_promote, promote}
use prappser_spaces.Invitation.Service.Joiner.{Joiner, known, check_join, check_account}

-- A device of another account, or a revoked one.
abbrev pub conflicts : String → Option Device → Bool
conflicts key none = false
conflicts key (some d) = not (d.user_public_key == key) || not (is_absent d.revoked_at)

abbrev pub or_missing {ℓ} : {A : Type ℓ} → Option A → Result A
or_missing none = err []
or_missing (some a) = ok a

abbrev pub has_none : List Device → Bool
has_none [] = true
has_none (d ∷ l) = false

abbrev add_avatar : Account → Fields → Fields
add_avatar acct m = elim acct.avatar_storage_id [
  | none ↦ m
  | some id ↦ field "userAvatarStorageId" (str id) m
]

abbrev add_expiry : Invitation → ℤ → Fields → Fields
add_expiry i now m = elim i.membership_duration_hours [
  | none ↦ m
  | some h ↦ field "membershipExpiresAt" (int64 (hours_later now h)) m
]

module _ {World : Type 0} (o : Service World) where
  unfoldable pub claim : Joiner World → Run World (Unit {0})
  claim j = change o.faults.on_claim (increment_use_count j.invite.id)

  unfoldable pub release : Joiner World → Run World (Unit {0})
  release j = ignored (change o.faults.on_release (release_use j.invite.id))

  abbrev pub ensure_device : Joiner World → String → Run World (Unit {0})
  ensure_device j device = call (o.others.ensure_device device j.proof.public_key j.device_name)

  -- What follows CreateUser: whether the account is new. A lost race makes it a known one.
  unfoldable pub after_create : Joiner World → Result (Unit {0}) → Run World Bool
  after_create j (ok _) =
      (if is_absent j.admit then ensure_device j j.proof.device_public_key else give tt)
      >> give true
  after_create j (err e) = if j.vouched && any is_pq_unique e then give false else lift (err e)

  -- The user that Join creates.
  abbrev pub guest : Joiner World → Account
  guest j = record {
    public_key = j.proof.public_key;
    username = j.proof.username;
    role = "guest";
    avatar_storage_id = none;
    binding_iat = pos 0;
  }

  -- The account of a joiner, and whether it is new; a new one claims its use first.
  unfoldable pub enroll : Joiner World → Option Account → Run World (Bool × Account)
  unfolding claim after_create
  enroll j (some acct) = give (false, acct)
  enroll j none = do
    lift (guard (not (j.proof.public_key == "")) [])
    (if j.vouched
        then (ask (o.others.get_device j.proof.device_public_key) >>= λ d.
            lift (guard (not (conflicts j.proof.public_key d)) (device_conflict ∷ [])))
        else give tt)
    claim j
    hold true
    r ← caught (call (o.others.create_user (guest j)))
    is_new ← after_create j r
    found ← ask (o.others.get_user j.proof.public_key)
    acct ← lift (or_missing found)
    give (is_new, acct)

  abbrev pub admit_binding : Option (World → Result (Unit {0}) × World) → Run World (Unit {0})
  admit_binding none = give tt
  admit_binding (some f) = call f

  -- A known account that has no device yet gets its own key as one.
  unfoldable pub ensure_first_device : Joiner World → Bool × Account → Run World (Unit {0})
  ensure_first_device j (is_new, acct) =
      if not is_new && is_absent j.admit && eqb_ℤ acct.binding_iat (pos 0)
      then (ask (o.others.list_devices j.proof.public_key) >>= λ devices.
          if has_none devices then ensure_device j j.proof.public_key else give tt)
      else give tt

  abbrev pub release_held : Joiner World → Bool → Run World (Unit {0})
  release_held j true = hold false >> release j
  release_held j false = give tt

  abbrev pub use_of : Joiner World → InvitationUse
  use_of j = record {
    id = o.use_id;
    invitation_id = j.invite.id;
    user_public_key = j.proof.public_key;
    used_at = o.now.unix;
  }

  abbrev pub record_this : Joiner World → Run World (Unit {0})
  record_this j = change o.faults.on_record (record_use (use_of j))

  -- A member that an invitation makes a user of the space, once.
  unfoldable pub promote_member : Joiner World → Run World (Unit {0})
  unfolding claim
  promote_member j = do
    used ← query o.faults.on_used (has_been_used_by j.invite.id j.proof.public_key)
    (if used then give tt else (claim j >> (promote o j.proof.public_key >> record_this j)))

  abbrev pub old_member : Joiner World → Member → JoinResult
  old_member j m = record {
    application_id = j.invite.application_id;
    member_id = m.id;
    is_new_member = false;
    last_event_id = "";
  }

  -- Who is a member already gets the answer that they are.
  unfoldable pub rejoin : Joiner World → Account → Run World JoinResult
  unfolding release promote_member
  rejoin j acct = do
    (λ s. release_held j s.held_claim s)
    found ← ask (o.others.get_member j.invite.application_id j.proof.public_key)
    m ← lift (or_missing found)
    may ← can_promote o j.invite acct j.proof.device_public_key
    (if may then promote_member j else give tt)
    give (old_member j m)

  unfoldable pub added_event : Joiner World → Account → Event
  added_event j acct = record {
    id = o.event_id;
    created_at = o.now.unix;
    application_id = j.invite.application_id;
    sequence_number = 0;
    type = member_added;
    creator_public_key = j.proof.public_key;
    version = pos 0;
    body = some (
        add_expiry j.invite o.now.unix (
          add_avatar acct (
            field "applicationId" (str j.invite.application_id) (
              field "memberPublicKey" (str j.proof.public_key) (
                field "userDisplayName" (str acct.username) (
                  field "role" (str j.invite.role) (
                    field "inviteId" (str j.invite.id) (field "version" (int (pos 1)) empty))))))));
    space_id = text_of j.invite.space_id;
  }

  abbrev pub claim_unless : Joiner World → Bool → Run World (Unit {0})
  claim_unless j true = give tt
  claim_unless j false = claim j

  abbrev pub new_member : Joiner World → Event → JoinResult
  new_member j e = record {
    application_id = j.invite.application_id;
    member_id = "";
    is_new_member = true;
    last_event_id = e.id;
  }

  -- Who is not a member yet becomes one by an event, after the claim of a use.
  unfoldable pub add_member : Joiner World → Account → Run World JoinResult
  unfolding added_event claim
  add_member j acct = do
    (λ s. claim_unless j s.held_claim s)
    hold false
    e ← call (o.others.produce_event (added_event j acct))
    record_this j
    may ← can_promote o j.invite acct j.proof.device_public_key
    (if may then ignored (promote o j.proof.public_key) else give tt)
    give (new_member j e)

  -- What follows the checks.
  unfoldable pub enter : Joiner World → Option Account → Run World JoinResult
  unfolding enroll ensure_first_device rejoin add_member
  enter j known_account = do
    entered ← enroll j known_account
    admit_binding j.admit
    ensure_first_device j entered
    member ← ask (o.others.is_member j.invite.application_id j.proof.public_key)
    (if member then rejoin j entered.1 else add_member j entered.1)

  -- The deferred function, which returns a claim that is still held.
  unfoldable pub return_claim : Joiner World → Run World (Unit {0})
  unfolding release
  return_claim j s = (if s.held_claim then release j else give tt) s

  -- A join that passed its checks.
  abbrev pub join_checked : Joiner World → Run World JoinResult
  join_checked j = do
    r ← caught (ask (o.others.get_user j.proof.public_key))
    check_account o j (known r)
    hold false
    deferred (return_claim j) (enter j (known r))

  -- Join
  unfoldable pub join : String → String → String → String → String → Run World JoinResult
  unfolding check_join check_account enter return_claim
  join token proof assertion binding device_name =
      check_join o token proof assertion binding device_name >>= λ j. join_checked j

-- ===== src/Invitation/Service.antt =====
-- Creating, revoking and reading invitations (internal/invitation/invitation_service.go).
pub mod Gates
pub mod Keeps
pub mod Joiner
pub mod Join
pub mod Status
pub mod Created
use prappser_spaces.Base.{
  String, Bool, true, false, not, ◌&&◌, ◌||◌, Option, none, some, List, [], ◌∷◌, ◌==◌, any, length,
  if◌then◌else◌,
}
use prappser_spaces.Base.Int.{ℤ, pos, ltb_ℤ, leb_ℤ}
use prappser_spaces.Value.{Value, Fields, empty, field, str, int, int64, float64, read, as_string}
use prappser_spaces.Value.Number.{truncate}
use prappser_spaces.Result.{
  Result, ok, err, guard, Error, is_not_found, agent_read_off, app_unauthorized,
  space_use_not_allowed, invalid_invite_role, invalid_invite_options, invitation_not_found,
  app_mismatch,
}
use prappser_spaces.Application.{
  Application, Member, User, Role, owner, admin, role_of, role_eq, is_grantable, agent_allowed,
}
use prappser_spaces.Event.{Event, invite_revoked}
use prappser_spaces.Invitation.{Invitation, InvitationResponse, InviteTokenClaims, hours_later}
use prappser_spaces.Invitation.Options.{
  CreateInvitationOptions, otherwise, map_option, or_text, text_of, single_by_default, identity,
  space_use, membership, bound_uses, role_or_default, check_options,
}
use prappser_spaces.Invitation.Tokens.{generate_token}
use prappser_spaces.Invitation.Repository.{
  create_invitation_row, get_invitation_by_id, delete_invitation_row,
  get_invitations_by_application_id,
}
use prappser_spaces.Invitation.Run.{
  Service, Run, ◌>>=◌, ◌>>◌, give, lift, ask, call, query, change, caught, ignored,
}

abbrev some_text : String → Option String
some_text s = if s == "" then none else some s

module _ {World : Type 0} (o : Service World) where
  abbrev pub allows : List Role → Option Member → Result (Unit {0})
  allows allowed none = err (app_unauthorized ∷ [])
  allows allowed (some m) = guard (any (role_eq m.role) allowed) (app_unauthorized ∷ [])

  -- AuthorizeAppRole
  unfoldable pub authorize_app_role : String → String → List Role → Run World (Unit {0})
  authorize_app_role app_id key allowed =
      ask (o.others.get_member app_id key) >>= λ m. lift (allows allowed m)

  abbrev pub agent_error : Result Application → Result Application
  agent_error (ok app) = ok app
  agent_error (err e) = if any is_not_found e then err (agent_read_off ∷ []) else err e

  -- The refusals of an agent.
  unfoldable pub check_agent : String → User → Run World (Unit {0})
  check_agent app_id caller =
      if caller.agent
      then (caught (ask (o.others.get_application app_id)) >>= λ r. lift (agent_error r) >>= λ app.
          lift (
            guard
              (agent_allowed app caller && any (λ m. m.public_key == caller.public_key) app.members)
              (agent_read_off ∷ [])))
      else give tt

  -- The row that CreateInvitation makes.
  unfoldable pub invitation_of : User → CreateInvitationOptions → Invitation
  invitation_of caller opts = record {
    id = o.invite_id;
    application_id = opts.application_id;
    created_by_public_key = caller.public_key;
    role = role_or_default opts;
    max_uses = single_by_default (identity opts || space_use opts) (bound_uses opts);
    expires_at = map_option (hours_later o.now.unix) opts.expires_in_hours;
    used_count = pos 0;
    created_at = o.now.unix;
    space_id = some_text caller.space_id;
    grants_membership = membership opts;
    grants_identity = identity opts;
    grants_space_use = space_use opts;
    membership_duration_hours = opts.membership_duration_hours;
    member_public_keys = opts.member_public_keys;
  }

  -- The authorization that creating and revoking share.
  unfoldable pub authorize_manager : String → User → Bool → Run World (Unit {0})
  unfolding authorize_app_role
  authorize_manager app_id caller writes = do
    authorize_app_role app_id caller.public_key (owner ∷ admin ∷ [])
    ask (o.others.move_guard app_id caller.public_key writes)

  -- The refusals of CreateInvitation, in its order.
  unfoldable pub check_creation : User → CreateInvitationOptions → Run World (Unit {0})
  unfolding check_agent authorize_manager check_options
  check_creation caller opts = do
    lift (guard (not (opts.application_id == "")) [])
    lift (guard (not (caller.public_key == "")) [])
    check_agent opts.application_id caller
    authorize_manager opts.application_id caller true
    lift (
        guard (not (otherwise false opts.grants_space_use) || (caller.role == "owner"))
          (space_use_not_allowed ∷ []))
    lift (guard (not (or_text o.external_url opts.space_url == "")) [])
    lift (check_options opts)

  abbrev pub response_of : Invitation → String → InvitationResponse
  response_of i token = record {
    id = i.id;
    token = token;
    expires_at = i.expires_at;
    created_at = i.created_at;
    grants_space_use = i.grants_space_use;
  }

  -- CreateInvitation
  unfoldable pub create_invitation : User → CreateInvitationOptions → Run World InvitationResponse
  unfolding check_creation invitation_of generate_token
  create_invitation caller opts = do
    check_creation caller opts
    let i = invitation_of caller opts
    change o.faults.on_create (create_invitation_row i)
    token ← lift (generate_token o i.id (or_text o.external_url opts.space_url) i.expires_at)
    give (response_of i token)

  -- The event that tells of a revoked invitation.
  unfoldable pub revoked_event : User → Invitation → Event
  revoked_event caller i = record {
    id = o.event_id;
    created_at = o.now.unix;
    application_id = i.application_id;
    sequence_number = 0;
    type = invite_revoked;
    creator_public_key = caller.public_key;
    version = pos 0;
    body = some (
        field "version" (int (pos 1))
          (field "applicationId" (str i.application_id) (field "inviteId" (str i.id) empty)));
    space_id = text_of i.space_id;
  }

  abbrev pub or_no_invitation : Result Invitation → Result Invitation
  or_no_invitation (ok i) = ok i
  or_no_invitation (err e) = err (invitation_not_found ∷ [])

  -- RevokeInvitation
  unfoldable pub revoke_invitation : User → String → String → Run World (Unit {0})
  unfolding authorize_manager revoked_event
  revoke_invitation caller app_id invite_id = do
    lift (guard (not (caller.public_key == "")) [])
    authorize_manager app_id caller true
    r ← caught (query o.faults.on_get (get_invitation_by_id invite_id))
    i ← lift (or_no_invitation r)
    lift (guard (i.application_id == app_id) (app_mismatch ∷ []))
    change o.faults.on_delete (delete_invitation_row i.id)
    ignored (call (o.others.produce_event (revoked_event caller i)) >>= λ e. give tt)

  -- GetInvitesForApp
  unfoldable pub get_invites_for_app : User → String → Run World (List Invitation)
  unfolding authorize_manager
  get_invites_for_app caller app_id = do
    lift (guard (not (caller.public_key == "")) [])
    authorize_manager app_id caller false
    query o.faults.on_list (get_invitations_by_application_id app_id)

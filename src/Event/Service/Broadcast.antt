-- ===== src/Event/Service/Broadcast.antt =====
-- What is sent out after an event was committed (broadcastEvent in
-- internal/event/event_service.go). The hub and the pusher are other parts: here they are the list
-- of the calls that the service makes on them.
pub mod Recipients
use prappser_spaces.Base.{
  String, ◌≡◌, refl, Bool, true, false, not, ◌&&◌, ◌||◌, Option, none, some, List, [], ◌∷◌, ◌++◌,
  ◌==◌, map, filter, find, any, if◌then◌else◌,
}
use prappser_spaces.Base.Int.{ℤ}
use prappser_spaces.Result.{Result, ok, err, ◌>>=◌, ◌>>◌, Error}
use prappser_spaces.Application.{Application, Member}
use prappser_spaces.Application.Memory.{
  Repository, is_none, get_members_by_application_id, get_application_by_id,
}
use prappser_spaces.Event.{
  Event, EventType, application_deleted, application_moved, member_role_changed, reminder_fired,
}
use prappser_spaces.Event.Validator.Checks.{or_empty}
use prappser_spaces.Event.Authorizer.{string_at}
use prappser_spaces.Event.Service.Execute.Fields.{extract_recipients}
use prappser_spaces.Event.Service.Persist.{struck}

pub data Call : Type 0 where
  to_application : String → Event → Call
  to_user : String → Event → Call
  -- the event, the application if it could be read, the author's name, whether an agent wrote it,
  -- and the recipients
  push : Event → Option Application → String → Bool → List String → Call

-- Which optional parts the service has, and the database errors that strike the two reads here.
pub record Outlets : Type 0 where
  pub has_broadcaster : Bool
  pub has_pusher : Bool
  pub members_error : Option Error
  pub application_error : Option Error

abbrev pub is_user_channel_fanout : EventType → Bool
is_user_channel_fanout application_deleted = true
is_user_channel_fanout application_moved = true
is_user_channel_fanout _ = false

-- The keys of explicitRecipientEventTypes.
abbrev pub has_explicit_recipients : EventType → Bool
has_explicit_recipients reminder_fired = true
has_explicit_recipients _ = false

-- A failed fetch leaves no members.
abbrev pub fetch : Option Error → List Member → List Member
fetch none l = l
fetch (some _) l = []

-- The members that the switch needs, fetched once.
unfoldable pub members_for : Outlets → ℤ → Event → Repository → List Member
members_for o now e r =
    if not (e.application_id == "") && (is_user_channel_fanout e.type || o.has_pusher)
    then fetch o.members_error (get_members_by_application_id now e.application_id r)
    else []

abbrev other_keys : String → List Member → List String
other_keys creator [] = []
other_keys creator (m ∷ l) =
    let rest = other_keys creator l in if m.public_key == creator then rest else m.public_key ∷ rest

abbrev or_else : List String → List String → List String
or_else [] l = l
or_else (k ∷ l) _ = k ∷ l

role_target : Event → List Member → List String
role_target e members =
    let target = or_empty (string_at "memberPublicKey" e.body) in
    if not (target == "")
      && not (target == e.creator_public_key)
      && any (λ m. m.public_key == target) members
    then target ∷ []
    else []

abbrev pub is_role_change : EventType → Bool
is_role_change member_role_changed = true
is_role_change _ = false

-- recipientKeys
unfoldable pub recipient_keys : Event → List Member → List String
unfolding role_target
recipient_keys e members =
    if is_role_change e.type
    then role_target e members
    else or_else (if has_explicit_recipients e.type then extract_recipients e.body else [])
        (other_keys e.creator_public_key members)

abbrev name_of : Option Member → String
name_of none = ""
name_of (some m) = or_empty m.display_name

creator_name : String → List Member → String
creator_name key members =
    name_of (find (λ m. m.public_key == key && not (is_none m.display_name)) members)

abbrev or_nil : Result Application → Option Application
or_nil (ok app) = some app
or_nil (err _) = none

push_call : Outlets → ℤ → Event → Bool → List Member → List String → Repository → List Call
push_call o now e agent members [] r = []
push_call o now e agent members (k ∷ keys) r =
    push e (or_nil (struck o.application_error >> get_application_by_id now e.application_id r))
      (creator_name e.creator_public_key members) agent (k ∷ keys)
    ∷ []

unfoldable pub user_calls : Event → List Member → List Call
user_calls e [] = []
user_calls e (m ∷ l) = to_user m.public_key e ∷ user_calls e l

-- broadcastEvent
unfoldable pub broadcast_event : Outlets → ℤ → Event → Bool → Repository → List Call
unfolding push_call creator_name user_calls
broadcast_event o now e agent r =
    let members = members_for o now e r in
    (if o.has_broadcaster then to_application e.application_id e ∷ [] else [])
    ++ ((if is_user_channel_fanout e.type && o.has_broadcaster then user_calls e members else [])
        ++ (if o.has_pusher && not (e.application_id == "")
            then push_call o now e agent members (recipient_keys e members) r
            else []))

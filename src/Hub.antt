-- ===== src/Hub.antt =====
-- The websocket hub (internal/websocket/hub.go) and the subscriptions of its clients
-- (internal/websocket/client.go). A client is a number, the identity of its pointer, and `who` gives
-- its user. A step is what happens under the hub's lock, or in the loop of Run, whose channels
-- keep their messages in order.
pub mod Lists
pub mod Safety
pub mod Clients
pub mod Subscriptions
pub mod Closed
pub mod Delivery
use prappser_spaces.Base.{
  ℕ, String, ◌≡◌, refl, Bool, true, false, not, ◌&&◌, ◌||◌, Option, none, some, List, [], ◌∷◌, ◌++◌,
  ◌==◌, any, filter, length, ltb, eqb, if◌then◌else◌,
}
use prappser_spaces.Application.{User, Member}
use prappser_spaces.Event.{Event, EventType, member_removed}
use prappser_spaces.Event.Authorizer.{string_at}
use prappser_spaces.Event.Validator.Checks.{or_empty}

-- What a client's channel carries.
pub data Message : Type 0 where
  events : Event → Message
  push : String → Message
  failure : String → Message

-- The maps of the hub, and of each client its subscriptions, the queue of its channel `send`, and
-- whether that channel and the connection are closed.
pub record Hub : Type 0 where
  pub clients : ℕ → Bool
  pub by_user : String → List ℕ
  pub by_app : String → List ℕ
  pub subscriptions : ℕ → List String
  pub queue : ℕ → List Message
  pub closed : ℕ → Bool
  pub disconnected : ℕ → Bool

-- NewHub
abbrev pub new_hub : Hub
new_hub = record {
  clients = λ _. false;
  by_user = λ _. [];
  by_app = λ _. [];
  subscriptions = λ _. [];
  queue = λ _. [];
  closed = λ _. false;
  disconnected = λ _. false;
}

abbrev pub set {ℓ} : {A : Type ℓ} → ℕ → A → (ℕ → A) → ℕ → A
set c a f k = if eqb c k then a else f k

abbrev pub set_at {ℓ} : {A : Type ℓ} → String → A → (String → A) → String → A
set_at key a f k = if key == k then a else f k

-- The loop that takes a client out of a slice and breaks.
unfoldable pub remove_first : ℕ → List ℕ → List ℕ
remove_first c [] = []
remove_first c (x ∷ xs) = let rest = remove_first c xs in if eqb x c then xs else x ∷ rest

-- removeFromAppSubscribers; an empty slice and a missing key read alike.
unfoldable pub remove_from_app_subscribers : ℕ → String → (String → List ℕ) → String → List ℕ
remove_from_app_subscribers c app_id m = set_at app_id (remove_first c (m app_id)) m

-- The loop over GetSubscriptions in unregisterClient.
unfoldable pub remove_from_apps : ℕ → List String → (String → List ℕ) → String → List ℕ
unfolding remove_from_app_subscribers
remove_from_apps c [] m = m
remove_from_apps c (app_id ∷ apps) m =
    remove_from_apps c apps (remove_from_app_subscribers c app_id m)

-- A send that does not block: dropped where the buffer of 256 is full.
abbrev pub send_buffer_size : ℕ
send_buffer_size = 256

unfoldable pub offer : Message → ℕ → (ℕ → List Message) → ℕ → List Message
offer msg c queue =
    if ltb (length (queue c)) send_buffer_size then set c (queue c ++ msg ∷ []) queue else queue

unfoldable pub offer_all : Message → List ℕ → (ℕ → List Message) → ℕ → List Message
offer_all msg [] queue = queue
offer_all msg (c ∷ cs) queue = offer_all msg cs (offer msg c queue)

abbrev pub drop_app : String → List String → List String
drop_app app_id l = filter (λ a. not (a == app_id)) l

-- The keys that BroadcastToApplication collects.
unfoldable pub recipients : List Member → Event → String → Bool
recipients members e key =
    any (λ m. m.public_key == key) members
    || (is_removal e.type
        && not (or_empty (string_at "memberPublicKey" e.body) == "")
        && or_empty (string_at "memberPublicKey" e.body) == key)
  where
    is_removal : EventType → Bool
    is_removal member_removed = true
    is_removal _ = false

module _ (who : ℕ → User) where
  unfoldable pub register_client : ℕ → Hub → Hub
  register_client c h =
      let key = (who c).public_key in
      record h {
        clients = set c true h.clients;
        by_user = set_at key (h.by_user key ++ c ∷ []) h.by_user;
      }

  unfoldable pub unregister_client : ℕ → Hub → Hub
  unfolding remove_from_apps
  unregister_client c h =
      let key = (who c).public_key in
      if h.clients c
      then record h {
        clients = set c false h.clients;
        closed = set c true h.closed;
        by_user = set_at key (remove_first c (h.by_user key)) h.by_user;
        by_app = remove_from_apps c (h.subscriptions c) h.by_app;
      }
      else h

  -- disconnectClients closes the connections, not the channels.
  close_all : String → List ℕ → (ℕ → Bool) → ℕ → Bool
  close_all device [] f = f
  close_all device (c ∷ cs) f =
      close_all device cs
        (if device == "" || (who c).device_public_key == device then set c true f else f)

  unfoldable pub disconnect_clients : String → String → Hub → Hub
  unfolding close_all
  disconnect_clients account device h = record h {
    disconnected = close_all device (h.by_user account) h.disconnected;
  }

  -- Client.Subscribe, for the answer of the membership check: none where it fails. The error goes
  -- to the client's own channel, and this step happens when that has room for it.
  unfoldable pub subscribe : Option Bool → ℕ → String → Hub → Hub
  subscribe none c app_id h = record h {
    queue = set c (h.queue c ++ failure "failed to check membership" ∷ []) h.queue;
  }
  subscribe (some false) c app_id h = record h {
    queue = set c (h.queue c ++ failure "not a member of this application" ∷ []) h.queue;
  }
  subscribe (some true) c app_id h = record h {
    subscriptions = set c (app_id ∷ drop_app app_id (h.subscriptions c)) h.subscriptions;
    by_app =
        if any (eqb c) (h.by_app app_id)
        then h.by_app
        else set_at app_id (h.by_app app_id ++ c ∷ []) h.by_app;
  }

  -- Client.Unsubscribe
  unfoldable pub unsubscribe : ℕ → String → Hub → Hub
  unfolding remove_from_app_subscribers
  unsubscribe c app_id h = record h {
    subscriptions = set c (drop_app app_id (h.subscriptions c)) h.subscriptions;
    by_app = remove_from_app_subscribers c app_id h.by_app;
  }

  unfoldable pub broadcast_to_app : String → (String → Bool) → Event → Hub → Hub
  broadcast_to_app app_id allowed e h = record h {
    queue =
        offer_all (events e) (filter (λ c. allowed (who c).public_key) (h.by_app app_id)) h.queue;
  }

  unfoldable pub broadcast_to_user : String → Event → Hub → Hub
  broadcast_to_user key e h = record h { queue = offer_all (events e) (h.by_user key) h.queue }

  -- SendPush: whether a connection of the device accepted the payload.
  push_loop : String → Message → List ℕ → Bool → (ℕ → List Message) → Bool × (ℕ → List Message)
  push_loop device msg [] delivered queue = (delivered, queue)
  push_loop device msg (c ∷ cs) delivered queue =
      let hit = (who c).device_public_key == device in
      push_loop device msg cs (delivered || (hit && ltb (length (queue c)) send_buffer_size))
        (if hit then offer msg c queue else queue)

  unfoldable pub send_push : String → String → String → Hub → Bool × Hub
  unfolding push_loop
  send_push account device payload h =
      let result = push_loop device (push payload) (h.by_user account) false h.queue in
      (result.0, record h { queue = result.1 })

-- ===== src/Hub/Safety.antt =====
-- The invariant of the hub, its steps and the states that they reach.
use prappser_spaces.Base.{ℕ, String, ◌≡◌, Bool, true, false, Option, List, In}
use prappser_spaces.Application.{User}
use prappser_spaces.Event.{Event}
use prappser_spaces.Hub.{
  Hub, Message, register_client, unregister_client, disconnect_clients, subscribe, unsubscribe,
  broadcast_to_app, broadcast_to_user, send_push,
}
use prappser_spaces.Hub.Lists.{Once}

module _ (who : ℕ → User) where
  pub record IsSafe (h : Hub) : Type 0 where
    pub gone : (c : ℕ) → h.closed c ≡ true → h.clients c ≡ false
    pub users :
        (k : String) (c : ℕ) → In c (h.by_user k) → (h.clients c ≡ true) × (k ≡ (who c).public_key)
    pub apps :
        (a : String) (c : ℕ) → In c (h.by_app a) → (h.closed c ≡ false) × In a (h.subscriptions c)
    pub once_user : (k : String) → Once (h.by_user k)
    pub once_app : (a : String) → Once (h.by_app a)

  -- The steps of the hub. A connection makes one client, registers it once, and sends its last
  -- subscription before it unregisters, from the same goroutine.
  pub data HubStep : Hub → Hub → Type 0 where
    register :
        (c : ℕ) (h : Hub)
        → h.clients c ≡ false
        → h.closed c ≡ false
        → HubStep h (register_client who c h)
    unregister : (c : ℕ) (h : Hub) → HubStep h (unregister_client who c h)
    disconnect :
        (account device : String) (h : Hub) → HubStep h (disconnect_clients who account device h)
    subscribed :
        (answer : Option Bool) (c : ℕ) (app_id : String) (h : Hub)
        → h.closed c ≡ false
        → HubStep h (subscribe who answer c app_id h)
    unsubscribed : (c : ℕ) (app_id : String) (h : Hub) → HubStep h (unsubscribe who c app_id h)
    to_app :
        (app_id : String) (allowed : String → Bool) (e : Event) (h : Hub)
        → HubStep h (broadcast_to_app who app_id allowed e h)
    to_user : (key : String) (e : Event) (h : Hub) → HubStep h (broadcast_to_user who key e h)
    to_device :
        (account device payload : String) (h : Hub)
        → HubStep h (send_push who account device payload h).1
    sent : (q : ℕ → List Message) (h : Hub) → HubStep h (record h { queue = q })

  pub data HubReach (h : Hub) : Hub → Type 0 where
    at_start : HubReach h h
    later : {t u : Hub} → HubReach h t → HubStep t u → HubReach h u

-- ===== src/Hub/Closed.antt =====
-- No send on a closed channel: a client whose channel is closed is in no slice of the hub.
use prappser_spaces.Base.{ℕ, String, ◌≡◌, refl, Bool, true, false, none, some, List, arith, In}
use prappser_spaces.Application.{User}
use prappser_spaces.Hub.{
  Hub, Message, new_hub, disconnect_clients, subscribe, broadcast_to_app, broadcast_to_user,
  send_push,
}
use prappser_spaces.Hub.Lists.{Once}
use prappser_spaces.Hub.Safety.{
  IsSafe, HubStep, HubReach, register, unregister, disconnect, subscribed, unsubscribed, to_app,
  to_user, to_device, sent, at_start, later,
}
use prappser_spaces.Hub.Clients.{register-IsSafe, unregister-IsSafe}
use prappser_spaces.Hub.Subscriptions.{subscribe-IsSafe, unsubscribe-IsSafe}

module _ (who : ℕ → User) where
  -- The queues and the connections are apart from the slices.
  unaffected :
      (q : ℕ → List Message) (d : ℕ → Bool) (h : Hub)
      → IsSafe who h
      → IsSafe who (record h { queue = q; disconnected = d })
  unaffected q d h s = record {
    gone = s.gone;
    users = s.users;
    apps = s.apps;
    once_user = s.once_user;
    once_app = s.once_app;
  }

  step-IsSafe : {h t : Hub} → HubStep who h t → IsSafe who h → IsSafe who t
  unfolding disconnect_clients subscribe broadcast_to_app broadcast_to_user send_push
  step-IsSafe (register c h new unclosed) s = register-IsSafe who c h new unclosed s
  step-IsSafe (unregister c h) s = unregister-IsSafe who c h s
  step-IsSafe (disconnect account device h) s = unaffected _ _ h s
  step-IsSafe (subscribed (some true) c app_id h unclosed) s =
      subscribe-IsSafe who c app_id h unclosed s
  step-IsSafe (subscribed (some false) c app_id h unclosed) s = unaffected _ _ h s
  step-IsSafe (subscribed none c app_id h unclosed) s = unaffected _ _ h s
  step-IsSafe (unsubscribed c app_id h) s = unsubscribe-IsSafe who c app_id h s
  step-IsSafe (to_app app_id allowed e h) s = unaffected _ _ h s
  step-IsSafe (to_user key e h) s = unaffected _ _ h s
  step-IsSafe (to_device account device payload h) s = unaffected _ _ h s
  step-IsSafe (sent q h) s = unaffected _ _ h s

  reach-IsSafe : {h t : Hub} → HubReach who h t → IsSafe who h → IsSafe who t
  reach-IsSafe at_start s = s
  reach-IsSafe (later r st) s = step-IsSafe st (reach-IsSafe r s)

  new-IsSafe : IsSafe who new_hub
  new-IsSafe = record {
    gone = λ c z. refl;
    users = λ k c i. absurd i;
    apps = λ a c i. absurd i;
    once_user = λ k. tt;
    once_app = λ a. tt;
  }

  pub reach-Once : (h : Hub) (app_id : String) → HubReach who new_hub h → Once (h.by_app app_id)
  reach-Once h app_id r = (reach-IsSafe r new-IsSafe).once_app app_id

  -- Whatever happens to a new hub, a client whose channel is closed is in no slice of users or of
  -- applications, so no broadcast and no push sends on a closed channel; and each slice lists a
  -- client once, so it gets an event once.
  pub closed_is_gone :
      (h : Hub) (c : ℕ) (key app_id : String)
      → HubReach who new_hub h
      → h.closed c ≡ true
      → (In c (h.by_user key) → ⊥)
        × (In c (h.by_app app_id) → ⊥)
        × Once (h.by_user key)
        × Once (h.by_app app_id)
  closed_is_gone h c key app_id r z =
      let s = reach-IsSafe r new-IsSafe in
      (
        (λ i. ground (arith, s.gone c z, (s.users key c i).0)),
        (λ i. ground (arith, z, (s.apps app_id c i).0)),
        s.once_user key,
        s.once_app app_id,
      )

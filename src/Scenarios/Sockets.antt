-- ===== src/Scenarios/Sockets.antt =====
-- Runs of the websocket hub (internal/websocket/hub.go).
use prappser_spaces.Base.{ℕ, ◌≡◌, refl, true, some, ◌==◌, ◌&&◌, any, eqb, In, if◌then◌else◌}
use prappser_spaces.Application.{User}
use prappser_spaces.Hub.{
  Hub, events, new_hub, register_client, unregister_client, subscribe, broadcast_to_app,
}
use prappser_spaces.Hub.Lists.{Once}
use prappser_spaces.Hub.Safety.{HubReach, register, unregister, subscribed, at_start, later}
use prappser_spaces.Hub.Closed.{closed_is_gone}
use prappser_spaces.Hub.Delivery.{offered, broadcast_exact}
use prappser_spaces.Scenarios.{person, renamed}

-- Device 1 is Ana's and device 2 Ben's.
abbrev who : ℕ → User
who c = if eqb c 1 then person "ana" else person "ben"

abbrev joined : Hub
joined = subscribe who (some true) 1 "app" (register_client who 1 new_hub)

abbrev both : Hub
both = subscribe who (some true) 2 "app" (register_client who 2 joined)

abbrev left : Hub
left = unregister_client who 1 both

joined-HubReach : HubReach who new_hub joined
unfolding register_client subscribe
joined-HubReach =
    later (later at_start (register 1 new_hub refl refl))
      (subscribed (some true) 1 "app" (register_client who 1 new_hub) refl)

both-HubReach : HubReach who new_hub both
unfolding register_client subscribe
both-HubReach =
    later (later joined-HubReach (register 2 joined refl refl))
      (subscribed (some true) 2 "app" (register_client who 2 joined) refl)

left-HubReach : HubReach who new_hub left
left-HubReach = later both-HubReach (unregister 1 both)

closed_run : left.closed 1 ≡ true
unfolding register_client subscribe unregister_client
closed_run = refl

closed_is_gone_example :
    (In 1 (left.by_user "ana") → ⊥)
    × (In 1 (left.by_app "app") → ⊥)
    × Once (left.by_user "ana")
    × Once (left.by_app "app")
closed_is_gone_example = closed_is_gone who left 1 "ana" "app" left-HubReach closed_run

broadcast_exact_example :
    (broadcast_to_app who "app" (λ k. k == "ben") (renamed "e5" "Plan") both).queue 2 ≡ (
      if any (eqb 2) (both.by_app "app") && (who 2).public_key == "ben"
      then offered (events (renamed "e5" "Plan")) (both.queue 2)
      else both.queue 2)
broadcast_exact_example =
    broadcast_exact who both "app" (λ k. k == "ben") (renamed "e5" "Plan") 2 both-HubReach

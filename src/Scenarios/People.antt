-- ===== src/Scenarios/People.antt =====
-- Runs of the event service (internal/event/event_service.go) that touch members, or that are refused.
use prappser_spaces.Base.Int.{pos, negsuc, ◌-ℤ◌, ◌≤ℤ◌}
use prappser_spaces.Event.Staleness.{normalize_minted_at, window_seconds}
use prappser_spaces.Event.Staleness.Laws.{staleness_exact, ancient_accepted}
use prappser_spaces.Event.Service.Broadcast.{recipient_keys, is_role_change}
use prappser_spaces.Event.Service.Broadcast.Recipients.{recipients_are_others}
use prappser_spaces.Event.Validator.Checks.{or_empty}
use prappser_spaces.Base.{
  ◌≡◌, ◌≢◌, ◌↔◌, ◌⊎◌, ◌==◌, any, refl, true, false, none, some, [], ◌∷◌, inl, arith, In,
}
use prappser_spaces.Event.Service.Conflict.{used_id_refused}
use prappser_spaces.Scenarios.{logged}
use prappser_spaces.Result.{Error, ok, err, unauthorized}
use prappser_spaces.Event.{Event, type_name, member_role_changed, application_deleted}
use prappser_spaces.Event.Store.{get_by_id, move_guard}
use prappser_spaces.Application.Memory.{values, is_member}
use prappser_spaces.Application.Memory.Members.{IsKeyed}
use prappser_spaces.Event.Service.{accept_event}
use prappser_spaces.Event.Service.Owners.{none_yet, request, owners_survive}
use prappser_spaces.Event.Service.Refusal.{refused_unchanged, outsider_refused}
use prappser_spaces.Scenarios.{
  apart, noon, space, world, people, person, renamed, removal, ana, ben, kim,
}
use prappser_spaces.Application.Memory.{get_application_by_id}
use prappser_spaces.Event.Validator.{validate_event, validate_application_data_changed_data}
use prappser_spaces.Event.Validator.Checks.{required}
use prappser_spaces.Value.{as_string, read}
use prappser_spaces.Event.Service.{admit}
use prappser_spaces.Base.Dict.{get}
use prappser_spaces.Event.Authorizer.{string_at, authorize_event, find_member}
use prappser_spaces.Application.Memory.{get_members_by_application_id, sort_by, is_member_active}
use prappser_spaces.Event.Staleness.{check_event_staleness}

refused_run :
    (accept_event world (renamed "e6" "Mine") (person "zoe") space).0 ≡ err (unauthorized ∷ [])
unfolding accept_event validate_event type_name validate_application_data_changed_data required
    as_string read get_by_id admit move_guard get get_application_by_id authorize_event find_member
    get_members_by_application_id sort_by is_member_active
refused_run = refl

refused_unchanged_example :
    accept_event world (renamed "e6" "Mine") (person "zoe") space
    ≡ (err (unauthorized ∷ []), space, [])
refused_unchanged_example =
    refused_unchanged world (renamed "e6" "Mine") (person "zoe") space (unauthorized ∷ [])
      refused_run

stranger : is_member noon "app" "zoe" people ≡ false
unfolding is_member is_member_active
stranger = refl

new_run : get_by_id "e6" space ≡ none
unfolding get_by_id
new_run = refl

outsider_refused_example :
    ((accept_event world (renamed "e6" "Mine") (person "zoe") space).1 ≡ space)
    × ((accept_event world (renamed "e6" "Mine") (person "zoe") space).2 ≡ [])
unfolding as_string read
outsider_refused_example =
    outsider_refused world (renamed "e6" "Mine") (person "zoe") space refl stranger new_run

people-IsKeyed : IsKeyed people
people-IsKeyed = record {
  keyed = (refl, (refl, (refl, tt)));
  differ = (
    (
      record { ids = apart "m1" "m2" refl; keys = λ _. apart "ana" "ben" refl },
      (record { ids = apart "m1" "m3" refl; keys = λ _. apart "ana" "kim" refl }, tt),
    ),
    ((record { ids = apart "m2" "m3" refl; keys = λ _. apart "ben" "kim" refl }, tt), (tt, tt)),
  );
}

-- An admin tries to remove the owner, and then removes someone else.
owners_survive_example :
    In ana (
      values
        (accept_event world
          (removal "e6" "kim")
          (person "ben")
          (accept_event world (removal "e5" "ana") (person "ben") space).1).1.repo.members)
    × IsKeyed
        (accept_event world
          (removal "e6" "kim")
          (person "ben")
          (accept_event world (removal "e5" "ana") (person "ben") space).1).1.repo
owners_survive_example =
    owners_survive space
      (accept_event world (removal "e6" "kim") (person "ben")
        (accept_event world (removal "e5" "ana") (person "ben") space).1).1
      ana
      (request (request none_yet world (removal "e5" "ana") (person "ben")) world
        (removal "e6" "kim") (person "ben"))
      people-IsKeyed (inl refl) refl

-- A change of role is told to the one whose role it is, and not to its author.
abbrev promotion : Event
promotion = record (removal "e7" "kim") { type = member_role_changed; creator_public_key = "ben" }

recipients_are_others_example :
    ("kim" ≢ promotion.creator_public_key)
    × (any (λ m. m.public_key == "kim") (ana ∷ ben ∷ kim ∷ []) ≡ true)
    × ((is_role_change promotion.type ≡ false)
        ⊎ ("kim" ≡ or_empty (string_at "memberPublicKey" promotion.body)))
unfolding recipient_keys as_string read
recipients_are_others_example =
    recipients_are_others promotion (ana ∷ ben ∷ kim ∷ []) "kim" refl (inl refl)

-- 40 days before noon, in milliseconds.
staleness_exact_example :
    (check_event_staleness application_deleted (pos 1763769600000) noon ≡ ok tt) ↔ (
      (pos 1763769600000 ≡ pos 0)
      ⊎ ((noon -ℤ normalize_minted_at (pos 1763769600000)) ≤ℤ pos window_seconds))
unfolding normalize_minted_at
staleness_exact_example =
    staleness_exact application_deleted (pos 1763769600000) noon refl (omega arith, omega arith)

ancient_accepted_example :
    check_event_staleness application_deleted (negsuc 9223372036854775807) noon ≡ ok tt
ancient_accepted_example =
    ancient_accepted application_deleted 9223372036854775807 1767225600 refl
      (omega arith, omega arith) (omega arith) (omega arith)

-- Ana wrote e4.
taken : get_by_id "e4" space ≡ some (logged 4 "e4").event
unfolding get_by_id
taken = refl

used_id_refused_example :
    (x : Error) × (accept_event world (renamed "e4" "Mine") (person "kim") space
      ≡ (err x, space, []))
used_id_refused_example =
    used_id_refused world (renamed "e4" "Mine") (person "kim") space (logged 4 "e4").event taken
      (apart "ana" "kim" refl)

-- ===== src/Event/Store/Retention/Laws.antt =====
-- What pruning keeps: the sequence of every application, the newest rows, and every template.
use prappser_spaces.Base.{
  ℕ, ◌≤◌, ◌<◌, String, ◌≡◌, ◌≢◌, sym, ◌∙◌, inl, inr, Bool, true, ap, List, [], ◌∷◌, arith, eq_iff,
  eq_refl, All, In, filter, Bool-cases,
}
use prappser_spaces.Base.Members.{All-In, All-of_In, All-map, All-filter, In-filter}
use prappser_spaces.Base.Int.{ℤ}
use native.Mathlib.Decide.{dec_lt}
use prappser_spaces.Event.Store.{Row, Store, in_app, max_sequence, get_next_sequence}
use prappser_spaces.Event.Store.Order.{
  AllOrdered, IsOrdered, AllOrdered-filter, le-max_sequence, max_sequence_attained,
  ordinal_of_sequence, in_app_iff,
}
use prappser_spaces.Event.Store.Retention.{
  max_ordinal, is_anchor, survives, delete_older_than, cleanup_old_events,
}

-- The greatest ordinal bounds the others, and is one of them.
le-max_ordinal :
    (p : Row → Bool) (xs : List Row) → All (λ r. p r ≡ true → r.ordinal ≤ max_ordinal p xs) xs
unfolding max_ordinal
le-max_ordinal p [] = tt
le-max_ordinal p (x ∷ xs) = (
  (λ h. ground arith),
  All-map (λ r. p r ≡ true → r.ordinal ≤ max_ordinal p xs) _ xs (λ r f h. ground (arith, f h))
      (le-max_ordinal p xs),
)

max_ordinal-le :
    (p : Row → Bool) (xs : List Row) (n : ℕ)
    → All (λ r. p r ≡ true → r.ordinal ≤ n) xs
    → max_ordinal p xs ≤ n
unfolding max_ordinal
max_ordinal-le p [] n h = omega arith
max_ordinal-le p (x ∷ xs) n h = elim (Bool-cases (p x)) [
  | inl t ↦ ground (arith, h.0 t, max_ordinal-le p xs n h.1)
  | inr f ↦ ground (arith, max_ordinal-le p xs n h.1)
]

abbrev Bounded : String → ℕ → Row → Type 0
Bounded app n r = in_app app r ≡ true → r.event.sequence_number ≤ n

-- The row with the highest sequence number of an application has the greatest ordinal of it.
newest_ordinal :
    (xs : List Row) (r : Row)
    → AllOrdered xs
    → r.event.application_id ≢ ""
    → In r xs
    → r.event.sequence_number ≡ max_sequence r.event.application_id xs
    → r.ordinal ≡ max_ordinal (in_app r.event.application_id) xs
newest_ordinal xs r o n i top = omega (arith, upper, lower)
  where
    app : String
    app = r.event.application_id

    upper : r.ordinal ≤ max_ordinal (in_app app) xs
    upper =
        All-In (λ q. in_app app q ≡ true → q.ordinal ≤ max_ordinal (in_app app) xs) xs r
          (le-max_ordinal (in_app app) xs) i (eq_refl app)

    bound : (q : Row) → In q xs → in_app app q ≡ true → q.ordinal ≤ r.ordinal
    bound q j a =
        ordinal_of_sequence xs q r o j i (λ e. n (sym (in_app_iff app q a) ∙ e))
          (in_app_iff app q a)
          (omega
            (arith, All-In (Bounded app (max_sequence app xs)) xs q (le-max_sequence app xs) j a))

    lower : max_ordinal (in_app app) xs ≤ r.ordinal
    lower =
        max_ordinal-le (in_app app) xs r.ordinal
          (All-of_In (λ q. in_app app q ≡ true → q.ordinal ≤ r.ordinal) xs bound)

pub newest-is_anchor :
    (xs : List Row) (r : Row)
    → AllOrdered xs
    → r.event.application_id ≢ ""
    → In r xs
    → r.event.sequence_number ≡ max_sequence r.event.application_id xs
    → is_anchor xs r ≡ true
unfolding is_anchor
newest-is_anchor xs r o n i top =
    ground (arith, eq_iff r.event.application_id "", newest_ordinal xs r o n i top)

max_sequence-le :
    (app : String) (xs : List Row) (n : ℕ) → All (Bounded app n) xs → max_sequence app xs ≤ n
unfolding max_sequence
max_sequence-le app [] n h = omega arith
max_sequence-le app (x ∷ xs) n h = elim (Bool-cases (in_app app x)) [
  | inl t ↦ ground (arith, h.0 t, max_sequence-le app xs n h.1)
  | inr f ↦ ground (arith, max_sequence-le app xs n h.1)
]

-- A filter that keeps the anchors keeps the highest sequence number of every application.
max_sequence-filter :
    (app : String) (p : Row → Bool) (xs : List Row)
    → AllOrdered xs
    → app ≢ ""
    → ((r : Row) → In r xs → is_anchor xs r ≡ true → p r ≡ true)
    → max_sequence app (filter p xs) ≡ max_sequence app xs
max_sequence-filter app p xs o n keep = elim (dec_lt 0 (max_sequence app xs)) [
  | (yes some_number) ↦ omega (arith, upper, lower (max_sequence_attained app xs some_number))
  | (no zero_number) ↦ omega (arith, upper)
]
  where
    upper : max_sequence app (filter p xs) ≤ max_sequence app xs
    upper =
        max_sequence-le app (filter p xs) (max_sequence app xs)
          (All-filter (Bounded app (max_sequence app xs)) p xs (le-max_sequence app xs))

    lower :
        ((r : Row) × In r xs
          × (in_app app r ≡ true)
          × (r.event.sequence_number ≡ max_sequence app xs))
        → max_sequence app xs ≤ max_sequence app (filter p xs)
    lower (r, i, a, top) =
        let e = in_app_iff app r a in
        omega (
          arith,
          top,
          All-In (Bounded app (max_sequence app (filter p xs))) (filter p xs) r
              (le-max_sequence app (filter p xs))
              (In-filter p xs r i (
                keep r i (
                  newest-is_anchor xs r o (λ z. n (sym e ∙ z)) i
                    (top ∙ ap (λ (b : String). max_sequence b xs) (sym e)))))
              a,
        )

-- Pruning a log that is in order does not change the next sequence number of any application,
-- whatever the age of its events.
pub get_next_sequence-delete_older_than :
    (before : ℤ) (s : Store) (app : String)
    → IsOrdered s
    → app ≢ ""
    → get_next_sequence app (delete_older_than before s).1 ≡ get_next_sequence app s
unfolding get_next_sequence delete_older_than survives
get_next_sequence-delete_older_than before s app o n = omega (
  arith,
  max_sequence-filter app (survives before s.events) s.events o.rows n (λ r i a. ground arith),
)

-- Pruning keeps the order.
pub delete_older_than-IsOrdered :
    (before : ℤ) (s : Store) → IsOrdered s → IsOrdered (delete_older_than before s).1
unfolding delete_older_than
delete_older_than-IsOrdered before s o =
    let keep = survives before s.events in
    record {
      rows = AllOrdered-filter keep s.events o.rows;
      given = All-filter (λ r. r.ordinal ≤ s.last_ordinal) keep s.events o.given;
      positive = All-filter (λ r. 0 < r.ordinal) keep s.events o.positive;
      named = All-filter (λ r. r.event.id ≢ "") keep s.events o.named;
    }

pub cleanup-IsOrdered :
    (now days : ℤ) (s : Store) → IsOrdered s → IsOrdered (cleanup_old_events now days s).1
unfolding cleanup_old_events
cleanup-IsOrdered now days s o = delete_older_than-IsOrdered _ s o

-- Pruning keeps the highest sequence number of every application.
pub max_sequence-cleanup :
    (now days : ℤ) (s : Store) (app : String)
    → IsOrdered s
    → app ≢ ""
    → max_sequence app (cleanup_old_events now days s).1.events ≡ max_sequence app s.events
unfolding cleanup_old_events survives
max_sequence-cleanup now days s app o n =
    max_sequence-filter app _ s.events o.rows n (λ r i a. ground arith)

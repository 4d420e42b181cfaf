-- ===== src/Event/Store/Order.antt =====
-- The order of the events table: ordinals grow, ids are unique, and within an application the
-- sequence numbers grow with the ordinals.
use prappser_spaces.Base.{
  ◌+◌, ◌≤◌, ◌<◌, String, ◌≡◌, ◌≢◌, refl, sym, ◌∙◌, inl, inr, Bool, true, false, ap, none, List, [],
  ◌∷◌, ◌++◌, ◌==◌, arith, eq_iff, All, In, filter, find, Bool-cases, Option-cases, if◌then◌else◌,
  leb, ◌&&◌,
}
use mathlib.Core.Path.{subst, subst₂}
use prappser_spaces.Base.Members.{All-In, All-of_In, All-append, All-map, All-filter, find-none}
use prappser_spaces.Event.{Event}
use prappser_spaces.Event.Store.{Row, Store, in_app, max_sequence, get_by_id, append}

pub record Before (x y : Row) : Type 0 where
  pub ordinals : x.ordinal < y.ordinal
  pub ids : x.event.id ≢ y.event.id
  pub sequences :
      x.event.application_id ≢ ""
      → x.event.application_id ≡ y.event.application_id
      → x.event.sequence_number < y.event.sequence_number

abbrev pub AllOrdered : List Row → Type 0
AllOrdered [] = Unit
AllOrdered (x ∷ xs) = All (Before x) xs × AllOrdered xs

pub record IsOrdered (s : Store) : Type 0 where
  pub rows : AllOrdered s.events
  pub given : All (λ r. r.ordinal ≤ s.last_ordinal) s.events
  pub positive : All (λ r. 0 < r.ordinal) s.events
  pub named : All (λ r. r.event.id ≢ "") s.events

pub AllOrdered-append_one :
    (xs : List Row) (y : Row) → AllOrdered xs → All (λ x. Before x y) xs → AllOrdered (xs ++ y ∷ [])
AllOrdered-append_one [] y o b = (tt, tt)
AllOrdered-append_one (x ∷ xs) y o b =
    (All-append (Before x) xs (y ∷ []) o.0 (b.0, tt), AllOrdered-append_one xs y o.1 b.1)

pub AllOrdered-filter : (p : Row → Bool) (xs : List Row) → AllOrdered xs → AllOrdered (filter p xs)
AllOrdered-filter p [] o = tt
AllOrdered-filter p (x ∷ xs) o =
    elim (p x) as (λ b. AllOrdered (if b then x ∷ filter p xs else filter p xs)) [
      | true ↦ (All-filter (Before x) p xs o.0, AllOrdered-filter p xs o.1)
      | false ↦ AllOrdered-filter p xs o.1
    ]

pub in_app_iff : (app : String) (r : Row) → (in_app app r ≡ true) → r.event.application_id ≡ app
in_app_iff app r h = (eq_iff r.event.application_id app).0 h

-- The highest number of an application bounds those of its rows.
pub le-max_sequence :
    (app : String) (xs : List Row)
    → All (λ r. in_app app r ≡ true → r.event.sequence_number ≤ max_sequence app xs) xs
unfolding max_sequence
le-max_sequence app [] = tt
le-max_sequence app (x ∷ xs) = (
  (λ h. ground arith),
  All-map (λ r. in_app app r ≡ true → r.event.sequence_number ≤ max_sequence app xs) _ xs
      (λ r f h. ground (arith, f h)) (le-max_sequence app xs),
)

-- It is the number of one of its rows, or 0.
pub max_sequence_attained :
    (app : String) (xs : List Row)
    → 0 < max_sequence app xs
    → (r : Row) × In r xs × (in_app app r ≡ true) × (r.event.sequence_number ≡ max_sequence app xs)
unfolding max_sequence
max_sequence_attained app [] h = absurd (omega arith)
max_sequence_attained app (x ∷ xs) h =
    elim (Bool-cases (in_app app x && leb (max_sequence app xs) x.event.sequence_number)) [
      | inl t ↦ (x, inl refl, ground arith, ground arith)
      | inr f ↦
          let (r, i, a, e) = max_sequence_attained app xs (ground arith) in
          (r, inr i, a, ground arith)
    ]

-- An earlier row of an application has a lower number.
lower_number :
    (x q r : Row)
    → Before x q
    → x ≡ r
    → q.event.application_id ≢ ""
    → q.event.application_id ≡ r.event.application_id
    → r.event.sequence_number < q.event.sequence_number
lower_number x q r c b n e =
    let same : x.event.application_id ≡ q.event.application_id =
      ap (λ (z : Row). z.event.application_id) b ∙ sym e in
    omega
      (arith, c.sequences (λ z. n (sym same ∙ z)) same, ap (λ (z : Row). z.event.sequence_number) b)

-- Of two rows of one application, the one with the higher number has the higher ordinal.
pub ordinal_of_sequence :
    (xs : List Row) (q r : Row)
    → AllOrdered xs
    → In q xs
    → In r xs
    → q.event.application_id ≢ ""
    → q.event.application_id ≡ r.event.application_id
    → q.event.sequence_number ≤ r.event.sequence_number
    → q.ordinal ≤ r.ordinal
ordinal_of_sequence [] q r o i j n e h = absurd i
ordinal_of_sequence (x ∷ xs) q r o (inl a) (inl b) n e h =
    omega (arith, ap (λ (z : Row). z.ordinal) a, ap (λ (z : Row). z.ordinal) b)
ordinal_of_sequence (x ∷ xs) q r o (inl a) (inr j) n e h =
    omega (arith, (All-In (Before x) xs r o.0 j).ordinals, ap (λ (z : Row). z.ordinal) a)
ordinal_of_sequence (x ∷ xs) q r o (inr i) (inl b) n e h =
    absurd (omega (arith, lower_number x q r (All-In (Before x) xs q o.0 i) b n e))
ordinal_of_sequence (x ∷ xs) q r o (inr i) (inr j) n e h = ordinal_of_sequence xs q r o.1 i j n e h

-- A lookup that fails: no row has the id.
pub get_by_id-none :
    (id : String) (s : Store) → get_by_id id s ≡ none → All (λ r. r.event.id ≢ id) s.events
unfolding get_by_id
get_by_id-none id s h =
    All-map (λ r. (r.event.id == id) ≡ false) (λ r. r.event.id ≢ id) s.events
      (λ r f e. ground (arith, eq_iff r.event.id id))
      (find-none (λ row. row.event.id == id) s.events
        (elim (Option-cases (find (λ row. row.event.id == id) s.events)) [
          | inl n ↦ n
          | inr f ↦ absurd (ground (arith, f.1))
        ]))

-- A row of a new id with a number above those of its application keeps the order.
pub append-IsOrdered :
    (e : Event) (s : Store)
    → IsOrdered s
    → get_by_id e.id s ≡ none
    → e.id ≢ ""
    → (e.application_id ≢ "" → max_sequence e.application_id s.events < e.sequence_number)
    → IsOrdered (append e s)
unfolding append
append-IsOrdered e s o new named above = record {
  rows = AllOrdered-append_one s.events row o.rows (
      All-of_In (λ x. Before x row) s.events
        (λ x i. record {
          ordinals = omega (arith, All-In (λ r. r.ordinal ≤ s.last_ordinal) s.events x o.given i);
          ids = All-In (λ r. r.event.id ≢ e.id) s.events x (get_by_id-none e.id s new) i;
          sequences = λ n same. below x i n same;
        }));
  given =
      All-append (λ r. r.ordinal ≤ s.last_ordinal + 1) s.events (row ∷ [])
        (All-map (λ r. r.ordinal ≤ s.last_ordinal) (λ r. r.ordinal ≤ s.last_ordinal + 1) s.events
          (λ r h. omega arith) o.given)
        (omega arith, tt);
  positive = All-append (λ r. 0 < r.ordinal) s.events (row ∷ []) o.positive (omega arith, tt);
  named = All-append (λ r. r.event.id ≢ "") s.events (row ∷ []) o.named (named, tt);
}
  where
    row : Row
    row = record { ordinal = s.last_ordinal + 1; event = e }

    below :
        (x : Row)
        → In x s.events
        → x.event.application_id ≢ ""
        → x.event.application_id ≡ e.application_id
        → x.event.sequence_number < e.sequence_number
    below x i n same = omega (
      arith,
      above (λ z. n (same ∙ z)),
      All-In
          (λ r.
            in_app e.application_id r ≡ true
            → r.event.sequence_number ≤ max_sequence e.application_id s.events)
          s.events x (le-max_sequence e.application_id s.events) i
          ((eq_iff x.event.application_id e.application_id).1 same),
    )

-- One step of the log: it stays, or one event of a new id is appended, with a number above those of
-- its application.
pub data LogStep (s t : Store) : Type 0 where
  same : t.events ≡ s.events → t.last_ordinal ≡ s.last_ordinal → LogStep s t
  appended :
      (e : Event)
      → t.events ≡ (append e s).events
      → t.last_ordinal ≡ (append e s).last_ordinal
      → get_by_id e.id s ≡ none
      → e.id ≢ ""
      → (e.application_id ≢ "" → max_sequence e.application_id s.events < e.sequence_number)
      → LogStep s t

-- The order is one of the log alone.
log-IsOrdered :
    (s t : Store)
    → t.events ≡ s.events
    → t.last_ordinal ≡ s.last_ordinal
    → IsOrdered s
    → IsOrdered t
log-IsOrdered s t e l o = record {
  rows = subst AllOrdered (sym e) o.rows;
  given = subst₂ (λ n xs. All (λ r. r.ordinal ≤ n) xs) (sym l) (sym e) o.given;
  positive = subst (All (λ r. 0 < r.ordinal)) (sym e) o.positive;
  named = subst (All (λ r. r.event.id ≢ "")) (sym e) o.named;
}

pub LogStep-IsOrdered : (s t : Store) → LogStep s t → IsOrdered s → IsOrdered t
LogStep-IsOrdered s t (same e l) o = log-IsOrdered s t e l o
LogStep-IsOrdered s t (appended e es l new named above) o =
    log-IsOrdered (append e s) t es l (append-IsOrdered e s o new named above)

max_sequence-append :
    (app : String) (xs ys : List Row) → max_sequence app xs ≤ max_sequence app (xs ++ ys)
unfolding max_sequence
max_sequence-append app [] ys = omega arith
max_sequence-append app (x ∷ xs) ys = ground (arith, max_sequence-append app xs ys)

-- The highest number of an application never falls.
pub max_sequence-LogStep :
    (app : String) (s t : Store)
    → LogStep s t
    → max_sequence app s.events ≤ max_sequence app t.events
max_sequence-LogStep app s t (same e l) = rw e (omega arith)
max_sequence-LogStep app s t (appended e es l new named above) =
    rw es (unfold append in max_sequence-append app s.events _)

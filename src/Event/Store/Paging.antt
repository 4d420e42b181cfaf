-- ===== src/Event/Store/Paging.antt =====
-- A client that reads the log page by page (GetSince in internal/event/event_repository.go): it
-- asks again with the id of the last event that it has, until there is no more.
mod Lists
use prappser_spaces.Base.{
  ℕ, zero, suc, ◌+◌, ◌-◌, ◌≤◌, ◌<◌, max, String, ◌≡◌, ◌≢◌, refl, sym, ◌∙◌, ◌⊎◌, inl, inr, Bool,
  true, false, ap, not, Option, none, some, List, [], ◌∷◌, ◌++◌, map, ◌==◌, ◌&&◌, ◌||◌, arith,
  eq_iff, eq_refl, All, In, filter, find, take, drop, length, Bool-cases, ltb, length-take, lt→ltb,
  if◌then◌else◌,
}
use mathlib.Core.Path.{subst}
use native.Mathlib.Decide.{dec_le}
use prappser_spaces.Base.Int.{ℤ}
use prappser_spaces.Base.Members.{All-In, All-of_In, In-of_filter}
use prappser_spaces.Result.{Result, ok, err, ◌>>=◌}
use prappser_spaces.Event.{Event}
use prappser_spaces.Event.Store.{
  Row, Store, get_since, rows_since, ordinal_of, page, page_limit, without_space, is_visible,
}
use prappser_spaces.Event.Store.Order.{AllOrdered, IsOrdered, Before, AllOrdered-filter}
use Lists.{take-take, take_all, length-drop, map-take-drop, filter_all, filter-filter, filter_ext}

abbrev pub last_id : List Event → String
last_id [] = ""
last_id (e ∷ []) = e.id
last_id (e ∷ f ∷ l) = last_id (f ∷ l)

-- The client's loop, for at most `fuel` requests.
pub catch_up : ℕ → ℤ → String → ℤ → String → Store → Result (List Event)
catch_up zero now key limit cursor s = ok []
catch_up (suc fuel) now key limit cursor s = get_since now key cursor limit s >>= λ (events, more).
    let rest = catch_up fuel now key limit (last_id events) s in
    if more then (rest >>= λ later. ok (events ++ later)) else ok events

abbrev is_above : ℕ → Row → Bool
is_above n r = ltb n r.ordinal

-- The rows above the k-th of an ordered list are those behind it.
is_above-drop :
    (k : ℕ) (xs : List Row)
    → AllOrdered xs
    → suc k ≤ length xs
    → (r : Row) × In r xs
      × (last_id (map without_space (take (suc k) xs)) ≡ r.event.id)
      × (filter (is_above r.ordinal) xs ≡ drop (suc k) xs)
is_above-drop k [] o h = absurd (omega arith)
is_above-drop zero (x ∷ xs) o h = (
  x,
  inl refl,
  refl,
  ground (
    arith,
    filter_all (is_above x.ordinal) xs (
        All-of_In (λ r. is_above x.ordinal r ≡ true) xs
          (λ r i. ground (arith, (All-In (Before x) xs r o.0 i).ordinals))),
  ),
)
is_above-drop (suc k) (x ∷ []) o h = absurd (omega arith)
is_above-drop (suc k) (x ∷ y ∷ ys) o h =
    let (r, i, l, f) = is_above-drop k (y ∷ ys) o.1 (omega arith) in
    (r, inr i, l, ground (arith, (All-In (Before x) (y ∷ ys) r o.0 i).ordinals, f))

le→not-ltb : (a b : ℕ) → b ≤ a → ltb a b ≡ false
le→not-ltb a b h = ground arith

find_unique :
    (xs : List Row) (r : Row)
    → AllOrdered xs
    → In r xs
    → find (λ row. row.event.id == r.event.id) xs ≡ some r
find_unique [] r o i = absurd i
find_unique (x ∷ xs) r o (inl e) =
    subst (λ z. find (λ row. row.event.id == z.event.id) (x ∷ xs) ≡ some z) e
      (ground (arith, eq_refl x.event.id))
find_unique (x ∷ xs) r o (inr i) = ground (
  arith,
  eq_iff x.event.id r.event.id,
  (All-In (Before x) xs r o.0 i).ids,
  find_unique xs r o.1 i,
)

-- The cursor of a row is its ordinal.
pub ordinal_of-id :
    (r : Row) (s : Store) → IsOrdered s → In r s.events → ordinal_of r.event.id s ≡ ok r.ordinal
unfolding ordinal_of
ordinal_of-id r s o i = ground (
  arith,
  find_unique s.events r o.rows i,
  eq_iff r.event.id "",
  All-In (λ r. r.event.id ≢ "") s.events r o.named i,
)

rows_since-rows_since :
    (now : ℤ) (key : String) (since : ℕ) (s : Store) (r : Row)
    → In r (rows_since now key since s)
    → rows_since now key r.ordinal s ≡ filter (is_above r.ordinal) (rows_since now key since s)
unfolding rows_since
rows_since-rows_since now key since s r i =
    filter_ext (test r.ordinal) (λ a. is_above r.ordinal a && test since a) s.events
      (λ a. ground (arith, (In-of_filter (test since) s.events r i).1))
    ∙ sym (filter-filter (is_above r.ordinal) (test since) s.events)
  where
    test : ℕ → Row → Bool
    test n row = ltb n row.ordinal && is_visible now key s.repo row.event

page_limit-positive : (limit : ℤ) → (k : ℕ) × (page_limit limit ≡ suc k)
page_limit-positive (ℤ.pos zero) = (99, refl)
page_limit-positive (ℤ.pos (suc n)) = elim (Bool-cases (ltb 500 (suc n))) [
  | inl t ↦ (99, ground arith)
  | inr f ↦ (n, ground arith)
]
page_limit-positive (ℤ.negsuc n) = (99, refl)

page_whole :
    (k : ℕ) (rows : List Row)
    → length rows ≤ suc k
    → page (suc k) rows ≡ (map without_space rows, false)
unfolding page
page_whole k rows h =
    let e : suc k + 1 ≡ suc (suc k) = omega arith in
    rw
      (
        e,
        take_all (suc (suc k)) rows (omega arith),
        take_all (suc k) rows h,
        le→not-ltb (suc k) (length rows) h,
      )
      refl

page_part :
    (k : ℕ) (rows : List Row)
    → suc k < length rows
    → page (suc k) rows ≡ (map without_space (take (suc k) rows), true)
unfolding page
page_part k rows h =
    let e : suc k + 1 ≡ suc (suc k) = omega arith in
    rw
      (
        e,
        take-take (suc k) rows,
        lt→ltb (suc k) (length (take (suc (suc k)) rows))
            (omega (arith, length-take (suc (suc k)) rows)),
      )
      refl

pub get_since-ok :
    (now : ℤ) (key cursor : String) (limit : ℤ) (s : Store) (since : ℕ)
    → ordinal_of cursor s ≡ ok since
    → get_since now key cursor limit s ≡ ok (page (page_limit limit) (rows_since now key since s))
unfolding get_since
get_since-ok now key cursor limit s since c = rw c refl

length-filter : (p : Row → Bool) (xs : List Row) → length (filter p xs) ≤ length xs
length-filter p [] = omega arith
length-filter p (x ∷ xs) = ground (arith, length-filter p xs)

length-rows_since :
    (now : ℤ) (key : String) (s : Store) → length (rows_since now key 0 s) ≤ length s.events
unfolding rows_since
length-rows_since now key s =
    length-filter (λ row. ltb 0 row.ordinal && is_visible now key s.repo row.event) s.events

module _ (now : ℤ) (key : String) (s : Store) (o : IsOrdered s) (limit : ℤ) where
  abbrev seen : ℕ → List Row
  seen since = rows_since now key since s

  seen-AllOrdered : (since : ℕ) → AllOrdered (seen since)
  unfolding rows_since
  seen-AllOrdered since =
      AllOrdered-filter (λ row. ltb since row.ordinal && is_visible now key s.repo row.event)
        s.events o.rows

  seen-In : (since : ℕ) (r : Row) → In r (seen since) → In r s.events
  unfolding rows_since
  seen-In since r i =
      (In-of_filter (λ row. ltb since row.ordinal && is_visible now key s.repo row.event) s.events r
        i).0

  catch_up-last :
      (fuel : ℕ) (cursor : String) (since k : ℕ)
      → ordinal_of cursor s ≡ ok since
      → page_limit limit ≡ suc k
      → length (seen since) ≤ suc k
      → catch_up (suc fuel) now key limit cursor s ≡ ok (map without_space (seen since))
  unfolding catch_up
  catch_up-last fuel cursor since k c l h =
      rw (get_since-ok now key cursor limit s since c, l, page_whole k (seen since) h) refl

  catch_up-more :
      (fuel : ℕ) (cursor : String) (since k : ℕ)
      → ordinal_of cursor s ≡ ok since
      → page_limit limit ≡ suc k
      → suc k < length (seen since)
      → catch_up (suc fuel) now key limit cursor s ≡ (
          catch_up fuel now key limit (last_id (map without_space (take (suc k) (seen since)))) s
          >>= λ later. ok (map without_space (take (suc k) (seen since)) ++ later))
  unfolding catch_up
  catch_up-more fuel cursor since k c l h =
      rw (get_since-ok now key cursor limit s since c, l, page_part k (seen since) h) refl

  catch_up_from :
      (fuel : ℕ) (cursor : String) (since : ℕ)
      → ordinal_of cursor s ≡ ok since
      → length (seen since) < fuel
      → catch_up fuel now key limit cursor s ≡ ok (map without_space (seen since))
  catch_up_from zero cursor since c h = absurd (omega arith)
  catch_up_from (suc fuel) cursor since c h =
      let (k, l) = page_limit-positive limit in
      elim (dec_le (length (seen since)) (suc k)) [
        | (yes small) ↦ catch_up-last fuel cursor since k c l small
        | (no big) ↦
            let (r, i, last, rest) =
              is_above-drop k (seen since) (seen-AllOrdered since) (omega arith) in
            let later : seen r.ordinal ≡ drop (suc k) (seen since) =
              rows_since-rows_since now key since s r i ∙ rest in
            rw
              (
                catch_up-more fuel cursor since k c l (omega arith),
                last,
                catch_up_from fuel r.event.id r.ordinal (ordinal_of-id r s o (seen-In since r i)) (
                    omega (
                      arith,
                      ap (λ (z : List Row). length z) later,
                      length-drop (suc k) (seen since),
                    )),
                later,
              )
              (ap ok (map-take-drop without_space (suc k) (seen since)))
      ]

-- On a log in order, a client that starts with no cursor and follows the pages, whatever limit it
-- asks for, ends after at most as many pages as there are rows, and one, with every event that it
-- may see, each once and in the order of the log.
pub catch_up-all :
    (now : ℤ) (key : String) (s : Store) (limit : ℤ) (fuel : ℕ)
    → IsOrdered s
    → length s.events < fuel
    → catch_up fuel now key limit "" s ≡ ok (map without_space (rows_since now key 0 s))
catch_up-all now key s limit fuel o h =
    catch_up_from now key s o limit fuel "" 0 (unfold ordinal_of in refl)
      (omega (arith, length-rows_since now key s))

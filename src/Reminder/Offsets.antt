-- ===== src/Reminder/Offsets.antt =====
-- The offsets that the event validator lets through, and the durations that they stand for.
use prappser_spaces.Base.{
  ℕ, ◌≡◌, refl, sym, ◌∙◌, inl, inr, Bool, true, false, not, ◌||◌, Option, none, some, List, [], ◌∷◌,
  arith, eqb, Bool-cases,
}
use prappser_spaces.Base.Int.{ℤ}
use prappser_spaces.Result.{Result, ok, err}
use prappser_spaces.Event.Validator.Offset.{
  is_empty, match_unit, Groups, find_submatch, is_valid_offset_spec, has_component, unit_at,
  optional_group, group_at, span_digits, end_of_time, match_time, end_of_days, match_days,
  match_period, match_sign,
}
use prappser_spaces.Reminder.{
  Match, group, digits_group, ends, time_part, days_end, period, after_sign, find_offset, magnitude,
  signed, duration_of, parse_offset_duration,
}

abbrev pub is_ok : Result ℤ → Bool
is_ok (ok d) = true
is_ok (err e) = false

-- Whether a match has a component, in either matcher.
abbrev pub has_part : Option Match → Bool
has_part none = false
has_part (some m) =
    not (is_empty m.days)
    || not (is_empty m.hours)
    || not (is_empty m.minutes)
    || not (is_empty m.seconds)

parsed_iff_part : (m : Option Match) → is_ok (duration_of m) ≡ has_part m
unfolding duration_of signed magnitude
parsed_iff_part none = refl
parsed_iff_part (some m) = ground arith

-- The two patterns take the same texts apart alike: a group is empty in both or in neither.
abbrev SameShape : Option Groups → Option Match → Type 0
SameShape none none = Unit
SameShape none (some m) = ⊥
SameShape (some g) none = ⊥
SameShape (some g) (some m) =
    (is_empty g.hours ≡ is_empty m.hours)
    × (is_empty g.minutes ≡ is_empty m.minutes)
    × (is_empty g.seconds ≡ is_empty m.seconds)
    × (is_empty g.days ≡ is_empty m.days)

SameShape-part :
    (g : Option Groups) (m : Option Match) → SameShape g m → has_component g ≡ has_part m
unfolding has_component
SameShape-part none none h = refl
SameShape-part none (some m) h = absurd h
SameShape-part (some g) none h = absurd h
SameShape-part (some g) (some m) (h, mi, s, d) = rw (h, mi, s, d) refl

unit-same :
    (u : ℕ) (s ds rest : List ℕ)
    → (is_empty (optional_group (unit_at u ds rest) u s).0
        ≡ is_empty (digits_group (unit_at u ds rest) s).0)
      × ((optional_group (unit_at u ds rest) u s).1 ≡ (digits_group (unit_at u ds rest) s).1)
unfolding unit_at optional_group digits_group
unit-same u s [] rest = (refl, refl)
unit-same u s (d ∷ ds) [] = (refl, refl)
unit-same u s (d ∷ ds) (c ∷ rest) = elim (Bool-cases (eqb c u)) [
  | inl t ↦ rw t (refl, refl)
  | inr f ↦ rw f (refl, refl)
]

group-same :
    (u : ℕ) (s : List ℕ)
    → (is_empty (group_at u s).0 ≡ is_empty (group u s).0) × ((group_at u s).1 ≡ (group u s).1)
unfolding group_at group match_unit
group-same u s = unit-same u s (span_digits s).0 (span_digits s).1

ends-same :
    (neg : Bool) (h m s h' m' s' rest : List ℕ)
    → is_empty h ≡ is_empty h'
    → is_empty m ≡ is_empty m'
    → is_empty s ≡ is_empty s'
    → SameShape (end_of_time h m s rest) (ends neg h' m' s' rest)
unfolding end_of_time ends
ends-same neg h m s h' m' s' [] p q r = (p, q, r, refl)
ends-same neg h m s h' m' s' (c ∷ rest) p q r = tt

time-same : (neg : Bool) (s : List ℕ) → SameShape (match_time s) (time_part neg s)
unfolding match_time time_part
time-same neg s =
    let (h, r₁) = group-same b'H' s in
    let (m, r₂) = group-same b'M' (group b'H' s).1 in
    let (sec, r₃) = group-same b'S' (group b'M' (group b'H' s).1).1 in
    rw (r₁, r₂, r₃)
      (ends-same neg _ _ _ _ _ _ (group b'S' (group b'M' (group b'H' s).1).1).1 h m sec)

days-same : (neg : Bool) (o : Option (List ℕ × List ℕ)) → SameShape (end_of_days o) (days_end neg o)
unfolding end_of_days days_end
days-same neg none = tt
days-same neg (some (ds, [])) = (refl, refl, refl, refl)
days-same neg (some (ds, c ∷ rest)) = tt

period-same : (neg : Bool) (s : List ℕ) → SameShape (match_period s) (period neg s)
unfolding match_period period match_days
period-same neg [] = tt
period-same neg (c ∷ s) = elim (Bool-cases (eqb c b'T')) [
  | inl t ↦ rw t (time-same neg s)
  | inr f ↦ rw f (days-same neg (match_unit b'D' (c ∷ s)))
]

sign-same : (neg : Bool) (s : List ℕ) → SameShape (match_sign s) (after_sign neg s)
unfolding match_sign after_sign
sign-same neg [] = tt
sign-same neg (c ∷ s) = elim (Bool-cases (eqb c b'P')) [
  | inl t ↦ rw t (period-same neg s)
  | inr f ↦ rw f tt
]

offset-same : (spec : List ℕ) → SameShape (find_submatch spec) (find_offset spec)
unfolding find_submatch find_offset
offset-same [] = tt
offset-same (c ∷ s) = elim (Bool-cases (eqb c b'-')) [
  | inl t ↦ rw t (sign-same true s)
  | inr f ↦ rw f (sign-same false (c ∷ s))
]

-- The event validator, which has a pattern of its own, lets exactly those offsets through that the
-- reminders can parse: for every text.
pub valid_iff_parsed :
    (spec : List ℕ) → is_valid_offset_spec spec ≡ is_ok (parse_offset_duration spec)
unfolding is_valid_offset_spec parse_offset_duration
valid_iff_parsed spec =
    SameShape-part (find_submatch spec) (find_offset spec) (offset-same spec)
    ∙ sym (parsed_iff_part (find_offset spec))

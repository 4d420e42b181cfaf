-- ===== src/RateLimit/Keys.antt =====
-- A limiter that many keys share is one limiter for each key.
use prappser_spaces.Base.{
  ℕ, ◌+◌, String, ◌≡◌, ◌≢◌, refl, sym, ◌∙◌, inl, inr, Bool, true, false, ap, Option, none, some,
  List, [], ◌∷◌, ◌==◌, arith, eq_iff, eq_refl, Bool-cases, if◌then◌else◌,
}
use mathlib.Core.Path.{ap₂}
use prappser_spaces.Base.Int.{ℤ, pos, pos_part, neg_part, sub_ℕ, ◌+ℤ◌, ◌-ℤ◌, ◌≤ℤ◌, leb_ℤ}
use prappser_spaces.RateLimit.{
  Bucket, Limiter, Buckets, is_expired, set, prune, allow, unless_expired, open_window, in_window,
  with_bucket, fresh,
}

-- The limiter of one key: its bucket, if any, is all that it knows.
abbrev pub Alone : Type 0
Alone = Option Bucket

unfoldable pub allow_alone : Limiter → ℤ → Alone → Bool × Alone
unfolding is_expired
allow_alone l now none = (true, some (fresh now))
allow_alone l now (some b) =
    if is_expired l.window now b
    then (true, some (fresh now))
    else if leb_ℤ l.limit b.count
    then (false, some b)
    else (true, some (record b { count = b.count +ℤ pos 1 }))

sub-law : (a b : ℕ) → pos_part (sub_ℕ a b) + b ≡ a + neg_part (sub_ℕ a b)
sub-law a b = ground arith

leb-leb_ℤ : (a b : ℤ) → leb_ℤ a b ≡ true → a ≤ℤ b
leb-leb_ℤ a b h = ground arith

≤ℤ→leb : (a b : ℤ) → a ≤ℤ b → leb_ℤ a b ≡ true
≤ℤ→leb a b h = ground arith

-- What is expired stays so.
expired_later :
    (window now t : ℤ) (b : Bucket)
    → now ≤ℤ t
    → is_expired window now b ≡ true
    → is_expired window t b ≡ true
unfolding is_expired
expired_later window now t b h e = ≤ℤ→leb window (t -ℤ b.window_start) (
    omega (
      arith,
      h,
      leb-leb_ℤ window (now -ℤ b.window_start) e,
      sub-law (pos_part now + neg_part b.window_start) (neg_part now + pos_part b.window_start),
      sub-law (pos_part t + neg_part b.window_start) (neg_part t + pos_part b.window_start),
    ))

-- A bucket that is dropped when it expires may be dropped before as well.
expire_twice :
    (window now t : ℤ) (o : Option Bucket)
    → now ≤ℤ t
    → unless_expired window t (unless_expired window now o) ≡ unless_expired window t o
unfolding unless_expired
expire_twice window now t none h = refl
expire_twice window now t (some b) h = elim (Bool-cases (is_expired window now b)) [
  | inl e ↦ rw (e, expired_later window now t b h e) refl
  | inr f ↦ rw f refl
]

≤ℤ_refl : (a : ℤ) → a ≤ℤ a
≤ℤ_refl a = omega arith

-- What a request of a key answers and leaves, from its bucket that is not expired.
decide : Limiter → Option Bucket → Bool
decide l none = true
decide l (some b) = if leb_ℤ l.limit b.count then false else true

next : Limiter → ℤ → Option Bucket → Option Bucket
next l now none = some (fresh now)
next l now (some b) =
    if leb_ℤ l.limit b.count then some b else some (record b { count = b.count +ℤ pos 1 })

alone-live :
    (l : Limiter) (now : ℤ) (o : Alone)
    → ((allow_alone l now o).0 ≡ decide l (unless_expired l.window now o))
      × ((allow_alone l now o).1 ≡ next l now (unless_expired l.window now o))
unfolding allow_alone unless_expired decide next
alone-live l now none = (refl, refl)
alone-live l now (some b) = elim (Bool-cases (is_expired l.window now b)) [
  | inl e ↦ rw e (refl, refl)
  | inr f ↦ elim (Bool-cases (leb_ℤ l.limit b.count)) [
    | inl t ↦ rw (f, t) (refl, refl)
    | inr n ↦ rw (f, n) (refl, refl)
  ]
]

set_own : (key : String) (b : Bucket) (m : Buckets) → set key b m key ≡ some b
set_own key b m = ground (arith, eq_refl key)

set_other : (key j : String) (b : Bucket) (m : Buckets) → key ≢ j → set key b m j ≡ m j
set_other key j b m n = ground (arith, n, eq_iff key j)

with_bucket-live :
    (l : Limiter) (now : ℤ) (key : String) (m : Buckets) (o : Option Bucket)
    → m key ≡ o
    → ((with_bucket l now key m o).0 ≡ decide l (unless_expired l.window now o))
      × (unless_expired l.window now ((with_bucket l now key m o).2 key)
          ≡ unless_expired l.window now (next l now (unless_expired l.window now o)))
unfolding with_bucket open_window in_window unless_expired decide next prune
with_bucket-live l now key m none q = (
  refl,
  expire_twice l.window now now (set key (fresh now) m key) (≤ℤ_refl now)
      ∙ ap (unless_expired l.window now) (set_own key (fresh now) m),
)
with_bucket-live l now key m (some b) q = elim (Bool-cases (is_expired l.window now b)) [
  | inl e ↦ rw e (
    refl,
    expire_twice l.window now now (set key (fresh now) m key) (≤ℤ_refl now)
        ∙ ap (unless_expired l.window now) (set_own key (fresh now) m),
  )
  | inr f ↦ elim (Bool-cases (leb_ℤ l.limit b.count)) [
    | inl t ↦ rw (f, t) (refl, ap (unless_expired l.window now) q)
    | inr n ↦ rw (f, n) (refl, ap (unless_expired l.window now) (set_own key _ m))
  ]
]

with_bucket-other :
    (l : Limiter) (now : ℤ) (key j : String) (m : Buckets) (o : Option Bucket)
    → key ≢ j
    → unless_expired l.window now ((with_bucket l now key m o).2 j)
      ≡ unless_expired l.window now (m j)
unfolding with_bucket open_window in_window prune
with_bucket-other l now key j m none n =
    expire_twice l.window now now (set key (fresh now) m j) (≤ℤ_refl now)
    ∙ ap (unless_expired l.window now) (set_other key j (fresh now) m n)
with_bucket-other l now key j m (some b) n = elim (Bool-cases (is_expired l.window now b)) [
  | inl e ↦ rw e (
      expire_twice l.window now now (set key (fresh now) m j) (≤ℤ_refl now)
      ∙ ap (unless_expired l.window now) (set_other key j (fresh now) m n))
  | inr f ↦ elim (Bool-cases (leb_ℤ l.limit b.count)) [
    | inl t ↦ rw (f, t) refl
    | inr k ↦ rw (f, k) (ap (unless_expired l.window now) (set_other key j _ m n))
  ]
]

pub record Request : Type 0 where
  pub time : ℤ
  pub key : String

-- The answers to requests that follow one another, with their keys.
unfoldable pub run : Limiter → List Request → Buckets → List (String × Bool)
run l [] m = []
run l (r ∷ rs) m = let answer = allow l r.time r.key m in (r.key, answer.0) ∷ run l rs answer.2

unfoldable pub answers_of : String → List (String × Bool) → List Bool
answers_of key [] = []
answers_of key ((k, b) ∷ l) = let rest = answers_of key l in if k == key then b ∷ rest else rest

unfoldable pub times_of : String → List Request → List ℤ
times_of key [] = []
times_of key (r ∷ rs) = let rest = times_of key rs in if r.key == key then r.time ∷ rest else rest

unfoldable pub run_alone : Limiter → List ℤ → Alone → List Bool
run_alone l [] o = []
run_alone l (t ∷ ts) o = let answer = allow_alone l t o in answer.0 ∷ run_alone l ts answer.1

-- The clock does not go back.
abbrev pub InOrder : ℤ → List Request → Type 0
InOrder t [] = Unit
InOrder t (r ∷ rs) = (t ≤ℤ r.time) × InOrder r.time rs

agree_later :
    (window now t : ℤ) (a b : Option Bucket)
    → now ≤ℤ t
    → unless_expired window now a ≡ unless_expired window now b
    → unless_expired window t a ≡ unless_expired window t b
agree_later window now t a b h q =
    sym (expire_twice window now t a h)
    ∙ (ap (unless_expired window t) q ∙ expire_twice window now t b h)

run-agrees :
    (l : Limiter) (key : String) (rs : List Request) (t : ℤ) (m : Buckets) (o : Alone)
    → InOrder t rs
    → unless_expired l.window t (m key) ≡ unless_expired l.window t o
    → answers_of key (run l rs m) ≡ run_alone l (times_of key rs) o
unfolding run answers_of times_of run_alone allow
run-agrees l key [] t m o h q = refl
run-agrees l key (r ∷ rs) t m o h q =
    let q' = agree_later l.window t r.time (m key) o h.0 q in
    let m' = (allow l r.time r.key m).2 in
    elim (Bool-cases (r.key == key)) [
      | inl e ↦
          let k = (eq_iff r.key key).0 e in
          let (answer, left) = with_bucket-live l r.time r.key m (m r.key) refl in
          let (answer', left') = alone-live l r.time o in
          let q'' = ap (λ z. unless_expired l.window r.time (m z)) k ∙ q' in
          rw e (
            ap₂ (λ (a : Bool) (b : List Bool). a ∷ b) (answer ∙ (ap (decide l) q'' ∙ sym answer'))
              (run-agrees l key rs r.time m' (allow_alone l r.time o).1 h.1 (
                ap (λ z. unless_expired l.window r.time (m' z)) (sym k)
                ∙ (left
                    ∙ (ap (λ z. unless_expired l.window r.time (next l r.time z)) q''
                        ∙ sym (ap (unless_expired l.window r.time) left'))))))
      | inr n ↦ rw n (
          run-agrees l key rs r.time m' o h.1 (
            with_bucket-other l r.time r.key key m (m r.key)
              (λ z. ground (arith, n, eq_iff r.key key, z))
            ∙ q'))
    ]

-- From empty buckets and while the clock does not go back, each key is answered as by a limiter of
-- its own, whatever the other keys ask and although every new window prunes the buckets of all.
pub keys_are_independent :
    (l : Limiter) (key : String) (rs : List Request) (start : ℤ)
    → InOrder start rs
    → answers_of key (run l rs (λ _. none)) ≡ run_alone l (times_of key rs) none
keys_are_independent l key rs start h = run-agrees l key rs start (λ _. none) none h refl

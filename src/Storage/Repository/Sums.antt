-- ===== src/Storage/Repository/Sums.antt =====
-- The bytes that an uploader uses (GetUsedBytesByUploader in internal/storage/repository.go) under
-- the changes of the table.
use prappser_spaces.Base.{
  String, ◌≡◌, refl, Bool, List, [], ◌∷◌, ◌==◌, map, filter, All, inl, inr, arith, Bool-cases,
  if◌then◌else◌, sym,
}
use mathlib.Core.Path.{subst}
use prappser_spaces.Base.Members.{filter-cons_true, filter-cons_false}
use prappser_spaces.Base.Int.{ℤ, pos, ◌+ℤ◌, ◌≤ℤ◌}
use prappser_spaces.Storage.{Storage}
use prappser_spaces.Storage.Repository.{Row, has_id, update_row, mark, sum_sizes}

abbrev pub IsCounted : Row → Type 0
IsCounted r = pos 0 ≤ℤ r.file.size_bytes

pub add_mono : (a b c : ℤ) → b ≤ℤ c → a +ℤ b ≤ℤ a +ℤ c
add_mono a b c h = ground arith

pub skip_le : (a b c : ℤ) → pos 0 ≤ℤ a → b ≤ℤ c → b ≤ℤ a +ℤ c
skip_le a b c k h = ground arith

pub le_refl : (a : ℤ) → a ≤ℤ a
le_refl a = omega arith

pub le_trans : (a b c : ℤ) → a ≤ℤ b → b ≤ℤ c → a ≤ℤ c
le_trans a b c h k = omega arith

skip_row :
    (key : String) (r : Row) (b c : ℤ)
    → IsCounted r
    → b ≤ℤ c
    → b ≤ℤ (if r.file.uploader_public_key == key then r.file.size_bytes +ℤ c else c)
skip_row key r b c k h = elim (Bool-cases (r.file.uploader_public_key == key)) [
  | inl t ↦ rw t (skip_le r.file.size_bytes b c k h)
  | inr f ↦ rw f h
]

pub sum_sizes_counted :
    (key : String) (rows : List Row) → All IsCounted rows → pos 0 ≤ℤ sum_sizes key rows
sum_sizes_counted key [] h = omega arith
sum_sizes_counted key (r ∷ rs) h =
    skip_row key r (pos 0) (sum_sizes key rs) h.0 (sum_sizes_counted key rs h.1)

keep_row :
    (key : String) (r : Row) (b c : ℤ)
    → b ≤ℤ c
    → (if r.file.uploader_public_key == key then r.file.size_bytes +ℤ b else b)
      ≤ℤ (if r.file.uploader_public_key == key then r.file.size_bytes +ℤ c else c)
keep_row key r b c h = elim (Bool-cases (r.file.uploader_public_key == key)) [
  | inl t ↦ rw t (add_mono r.file.size_bytes b c h)
  | inr f ↦ rw f h
]

-- Rows that are taken out make no sum larger.
pub sum_sizes-filter :
    (key : String) (p : Row → Bool) (rows : List Row)
    → All IsCounted rows
    → sum_sizes key (filter p rows) ≤ℤ sum_sizes key rows
sum_sizes-filter key p [] h = omega arith
sum_sizes-filter key p (r ∷ rs) h = elim (Bool-cases (p r)) [
  | inl t ↦
      subst (λ l. sum_sizes key l ≤ℤ sum_sizes key (r ∷ rs)) (sym (filter-cons_true p r rs t))
        (keep_row key r (sum_sizes key (filter p rs)) (sum_sizes key rs)
          (sum_sizes-filter key p rs h.1))
  | inr f ↦
      subst (λ l. sum_sizes key l ≤ℤ sum_sizes key (r ∷ rs)) (sym (filter-cons_false p r rs f))
        (skip_row key r (sum_sizes key (filter p rs)) (sum_sizes key rs) h.0
          (sum_sizes-filter key p rs h.1))
]

-- A change of rows that keeps the uploader and the size of each.
abbrev pub SameSize : (Row → Row) → Type 0
SameSize f =
    (r : Row)
    → ((f r).file.uploader_public_key ≡ r.file.uploader_public_key)
      × ((f r).file.size_bytes ≡ r.file.size_bytes)

pub sum_sizes-map :
    (key : String) (f : Row → Row) (rows : List Row)
    → SameSize f
    → sum_sizes key (map f rows) ≡ sum_sizes key rows
sum_sizes-map key f [] h = refl
sum_sizes-map key f (r ∷ rs) h = rw ((h r).0, (h r).1, sum_sizes-map key f rs h) refl

pub All-map-IsCounted :
    (f : Row → Row) (rows : List Row) → SameSize f → All IsCounted rows → All IsCounted (map f rows)
All-map-IsCounted f [] h a = tt
All-map-IsCounted f (r ∷ rs) h a =
    (subst (λ n. pos 0 ≤ℤ n) (sym (h r).1) a.0, All-map-IsCounted f rs h a.1)

pub update_row-SameSize :
    (g : Storage → Storage) (id : String)
    → ((s : Storage)
        → ((g s).uploader_public_key ≡ s.uploader_public_key) × ((g s).size_bytes ≡ s.size_bytes))
    → SameSize (update_row g id)
update_row-SameSize g id h r = elim (Bool-cases (has_id id r)) [
  | inl t ↦ rw t (h r.file)
  | inr f ↦ rw f (refl, refl)
]

pub mark-SameSize : (referenced : String → Bool) (now : ℤ) → SameSize (mark referenced now)
mark-SameSize referenced now r = (ground arith, ground arith)

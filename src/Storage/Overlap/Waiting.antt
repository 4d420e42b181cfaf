-- ===== src/Storage/Overlap/Waiting.antt =====
-- The uploads that wait for their insert, and the arithmetic of their sizes (checkQuota in
-- internal/storage/service.go).
use mathlib.Core.Path.{subst}
use prappser_spaces.Base.{
  ℕ, zero, suc, String, true, false, some, List, [], ◌∷◌, ◌==◌, if◌then◌else◌, ◌≡◌, refl, ◌≤◌, ◌<◌,
  ◌+◌, ◌*◌, All, inl, inr, arith, Bool-cases,
}
use prappser_spaces.Base.Int.{ℤ, pos, pos_part, ◌+ℤ◌, ◌≤ℤ◌, ltb_ℤ, half64}
use prappser_spaces.Storage.{Storage}
use prappser_spaces.Storage.Overlap.{nth, without, in_flight}

abbrev pub own_size : String → Storage → ℕ
own_size key s = if s.uploader_public_key == key then pos_part s.size_bytes else 0

-- The bytes of the uploads of `key` that wait.
abbrev pub reserved : String → List Storage → ℕ
reserved key [] = 0
reserved key (s ∷ ss) = own_size key s + reserved key ss

-- The size of an upload that has passed the cap on a file.
pub record IsFit (ceiling : ℕ) (s : Storage) : Type 0 where
  pub natural : pos 0 ≤ℤ s.size_bytes
  pub capped : pos_part s.size_bytes ≤ ceiling

pub suc_times : (m c p r : ℕ) → p ≤ c → r ≤ m * c → p + r ≤ suc m * c
suc_times m c p r h k = omega arith

pub reserved_le :
    (key : String) (ceiling n : ℕ) (ss : List Storage)
    → All (IsFit ceiling) ss
    → in_flight key ss ≤ n
    → reserved key ss ≤ n * ceiling
reserved_le key ceiling n [] h k = omega arith
reserved_le key ceiling zero (s ∷ ss) h k = elim (Bool-cases (s.uploader_public_key == key)) [
  | inl t ↦ absurd (ground arith)
  | inr t ↦ let rest = reserved_le key ceiling zero ss h.1 (ground arith) in rw t (omega arith)
]
reserved_le key ceiling (suc n) (s ∷ ss) h k = elim (Bool-cases (s.uploader_public_key == key)) [
  | inl t ↦ rw t (
      suc_times n ceiling (pos_part s.size_bytes) (reserved key ss) h.0.capped
        (reserved_le key ceiling n ss h.1 (ground arith)))
  | inr t ↦ let rest = reserved_le key ceiling (suc n) ss h.1 (ground arith) in rw t (omega arith)
]

pub All-without :
    (ceiling i : ℕ) (ss : List Storage)
    → All (IsFit ceiling) ss
    → All (IsFit ceiling) (without i ss)
All-without ceiling i [] h = h
All-without ceiling zero (s ∷ ss) h = h.1
All-without ceiling (suc i) (s ∷ ss) h = (h.0, All-without ceiling i ss h.1)

pub All-nth :
    (ceiling i : ℕ) (ss : List Storage) (s : Storage)
    → All (IsFit ceiling) ss
    → nth i ss ≡ some s
    → IsFit ceiling s
All-nth ceiling i [] s h e = absurd (ground arith)
All-nth ceiling zero (x ∷ ss) s h e = let q : x ≡ s = cc in subst (IsFit ceiling) q h.0
All-nth ceiling (suc i) (x ∷ ss) s h e = All-nth ceiling i ss s h.1 e

-- What leaves the waiting uploads leaves the sum of their bytes.
pub reserved-without :
    (key : String) (i : ℕ) (ss : List Storage) (s : Storage)
    → nth i ss ≡ some s
    → own_size key s + reserved key (without i ss) ≡ reserved key ss
reserved-without key i [] s e = absurd (ground arith)
reserved-without key zero (x ∷ ss) s e = let q : x ≡ s = cc in rw q refl
reserved-without key (suc i) (x ∷ ss) s e = let k = reserved-without key i ss s e in omega arith

pub reserved-without_le :
    (key : String) (i : ℕ) (ss : List Storage) → reserved key (without i ss) ≤ reserved key ss
reserved-without_le key i [] = omega arith
reserved-without_le key zero (s ∷ ss) = omega arith
reserved-without_le key (suc i) (s ∷ ss) = let k = reserved-without_le key i ss in omega arith

pub others :
    (key : String) (n : ℕ) (s : Storage) (waiting : List Storage)
    → in_flight key (s ∷ waiting) ≤ suc n
    → (s.uploader_public_key == key) ≡ true
    → in_flight key waiting ≤ n
others key n s waiting h t = ground arith

pub fits : (ceiling : ℕ) (size : ℤ) → ltb_ℤ (pos ceiling) size ≡ false → pos_part size ≤ ceiling
fits ceiling size h = ground arith

pub zero_plus : (r : ℕ) → r ≡ 0 + r
zero_plus r = omega arith

pub limit_small :
    (quota : ℤ) (m c : ℕ) → pos_part quota + m + c < half64 → pos_part (quota +ℤ pos m) + c < half64
limit_small quota m c h = ground arith

pub more : (a b : ℤ) (r : ℕ) → a ≤ℤ b → a ≤ℤ b +ℤ pos r
more a b r h = ground arith

pub moved_over :
    (a b c : ℤ) (p r r' : ℕ) → a ≤ℤ b +ℤ pos p → p + r' ≡ r → b +ℤ pos r ≤ℤ c → a +ℤ pos r' ≤ℤ c
moved_over a b c p r r' h k l = ground arith

pub same_size :
    (a sum : ℤ) (size : ℤ) → pos 0 ≤ℤ size → a ≤ℤ sum → size +ℤ a ≤ℤ sum +ℤ pos (pos_part size)
same_size a sum size n h = ground arith

pub grown :
    (sum quota size : ℤ) (r m : ℕ)
    → pos 0 ≤ℤ size
    → size +ℤ sum ≤ℤ quota
    → r ≤ m
    → sum +ℤ pos (pos_part size + r) ≤ℤ quota +ℤ pos m
grown sum quota size r m n h k = ground arith

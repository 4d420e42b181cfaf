-- ===== src/Storage/Paths/Apart.antt =====
-- The thumbnail and the chunks of a file are kept at other paths than the file
-- (internal/storage/service.go).
use Prim.Native.Char.{Char, code}
use Prim.Native.String.{◌++◌}
use text.Mathlib.TextLemmas.{
  cons-append, tail-eq_of_cons-eq, append_cancel_left, append-nil, append-eq-nil_iff, cons≢nil,
}
use prappser_spaces.Base.{
  ℕ, String, ◌≡◌, ◌≢◌, sym, ap, ◌∙◌, inl, inr, true, not, ◌&&◌, eqb, arith, Bool-cases,
}
use prappser_spaces.Base.Int.{ℤ}
use prappser_spaces.Storage.Paths.{stem, thumbnail_path_of, has_dot, has_slash}
use prappser_spaces.Storage.Service.{chunk_path, decimal}

abbrev first : String → ℕ
first String.[] = 0
first (String.◌∷◌ c s) = code c

underscore : (c : Char) (s : String) → eqb (code c) 46 ≡ true → "_thumb.jpg" ≢ String.◌∷◌ c s
underscore c s h e = let q : 95 ≡ code c = ap first e in absurd (ground arith)

stem-apart : (p : String) → stem p ++ "_thumb.jpg" ≢ p
unfolding stem
stem-apart String.[] e = cons≢nil e
stem-apart (String.◌∷◌ c s) e =
    elim (Bool-cases (eqb (code c) 46 && not (has_dot s) && not (has_slash s))) [
      | inl t ↦ underscore c s (ground arith) (rw t at e)
      | inr f ↦
          stem-apart s
            (tail-eq_of_cons-eq (sym (cons-append c (stem s) "_thumb.jpg") ∙ (rw f at e)))
    ]

pub thumbnail-apart : (p : String) → thumbnail_path_of p ≢ p
unfolding thumbnail_path_of
thumbnail-apart p = stem-apart p

pub chunk-apart : (p : String) (i : ℤ) → chunk_path p i ≢ p
unfolding chunk_path
chunk-apart p i e =
    let suffix = ".chunk." ++ decimal i in
    let nothing = append_cancel_left p suffix "" (e ∙ sym (append-nil p)) in
    cons≢nil ((append-eq-nil_iff {p = ".chunk."} {q = decimal i}).0 nothing).0

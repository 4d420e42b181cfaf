-- ===== src/Storage/Backend/Local.antt =====
-- The backend on the local disk (internal/storage/local_storage.go). The file system below its base
-- path is a map of files; `broken` says which of its calls on a file fail, and with what.
use Prim.Native.Char.{code}
use Prim.Native.String.{◌++◌}
use prappser_spaces.Base.{
  String, ◌≡◌, ◌∙◌, ◌≢◌, refl, Bool, true, false, not, ◌&&◌, ◌||◌, Option, none, some, List, [],
  ◌∷◌, ◌==◌, eq_iff, eq_refl, arith, eqb, if◌then◌else◌,
}
use prappser_spaces.Base.Dict.{Dict, get, put, remove, get-put, get-remove}
use prappser_spaces.Result.{Result, ok, err, ◌>>=◌, guard, Error, invalid_path, blob_not_found}
use prappser_spaces.Storage.{Bytes}
use prappser_spaces.Storage.Backend.{Backend, IsFaithful, succeeds, is_content}
use prappser_spaces.Storage.Paths.{is_dotted, stem}

-- strings.Split(path, "/")
abbrev pub prepend : String → List String → List String
prepend seg [] = seg ∷ []
prepend seg (s ∷ rest) = (seg ++ s) ∷ rest

unfoldable pub split : String → List String
split String.[] = "" ∷ []
split (String.◌∷◌ c s) =
    let rest = split s in
    if eqb (code c) 47 then "" ∷ rest else prepend (String.◌∷◌ c String.[]) rest

-- The segments that `resolve` lets through.
abbrev pub is_plain : List String → Bool
is_plain [] = true
is_plain (seg ∷ rest) = not (seg == "" || is_dotted seg) && is_plain rest

-- resolve, up to the base path. Of plain segments filepath.Join makes the path below the base, so
-- the test by filepath.Rel and filepath.IsLocal that follows always passes.
unfoldable pub resolve : String → Result (List String)
resolve path = guard (is_plain (split path)) (invalid_path ∷ []) >>= λ _. ok (split path)

-- What the operating system answers to a call on a path.
pub record Broken : Type 0 where
  pub on_create : String → Option Error
  pub on_write : String → Option Error
  pub on_open : String → Option Error
  pub on_remove : String → Option Error

abbrev pub Disk : Type 0
Disk = Dict Bytes

-- A file that cannot be written in full is removed.
abbrev store_at :
    Result (List String)
    → Option Error
    → Option Error
    → String
    → Bytes
    → Disk
    → Result (Unit {0}) × Disk
store_at (err e) c w path x d = (err e, d)
store_at (ok _) (some e) w path x d = (err e, d)
store_at (ok _) none (some e) path x d = (err e, remove path d)
store_at (ok _) none none path x d = (ok tt, put path x d)

abbrev content_of : Option Bytes → Result Bytes
content_of none = err (blob_not_found ∷ [])
content_of (some x) = ok x

abbrev fetch_at : Result (List String) → Option Error → Option Bytes → Result Bytes
fetch_at (err e) f x = err e
fetch_at (ok _) (some e) x = err e
fetch_at (ok _) none x = content_of x

-- A file that is not there is deleted as well.
abbrev delete_at : Result (List String) → Option Error → String → Disk → Result (Unit {0}) × Disk
delete_at (err e) f path d = (err e, d)
delete_at (ok _) (some e) path d = (err e, d)
delete_at (ok _) none path d = (ok tt, remove path d)

-- filepath.Base of a path that `resolve` lets through: its last segment.
last_segment : List String → String
last_segment [] = ""
last_segment (seg ∷ []) = seg
last_segment (seg ∷ next ∷ rest) = last_segment (next ∷ rest)

-- GetURL
unfoldable pub local_url : String → String → Result String
unfolding last_segment
local_url path base_url = ok (base_url ++ "/storage/" ++ stem (last_segment (split path)))

-- LocalStorage
unfoldable pub local_storage : Broken → Backend Disk
local_storage b = record {
  store = λ path x d. store_at (resolve path) (b.on_create path) (b.on_write path) path x d;
  fetch = λ path d. fetch_at (resolve path) (b.on_open path) (get path d);
  delete = λ path d. delete_at (resolve path) (b.on_remove path) path d;
  get_url = local_url;
}

neq : (p q : String) → p ≢ q → (p == q) ≡ false
neq p q n = ground (arith, eq_iff p q)

-- What is read depends on the map at the path alone.
fetch-same :
    (b : Broken) (q : String) (d d' : Disk)
    → get q d' ≡ get q d
    → (local_storage b).fetch q d' ≡ (local_storage b).fetch q d
unfolding local_storage
fetch-same b q d d' h = rw h refl

store-reads :
    (r : Result (List String)) (c w : Option Error) (p : String) (x : Bytes) (d : Disk)
    → succeeds (store_at r c w p x d).0 ≡ true
    → fetch_at r none (get p (store_at r c w p x d).1) ≡ ok x
store-reads (err e) c w p x d h = absurd (ground arith)
store-reads (ok _) (some e) w p x d h = absurd (ground arith)
store-reads (ok _) none (some e) p x d h = absurd (ground arith)
store-reads (ok _) none none p x d h = rw (get-put p p x d, eq_refl p) refl

store-keeps :
    (r : Result (List String)) (c w : Option Error) (p q : String) (x : Bytes) (d : Disk)
    → p ≢ q
    → get q (store_at r c w p x d).1 ≡ get q d
store-keeps (err e) c w p q x d n = refl
store-keeps (ok _) (some e) w p q x d n = refl
store-keeps (ok _) none (some e) p q x d n = rw (get-remove q p d, neq p q n) refl
store-keeps (ok _) none none p q x d n = rw (get-put q p x d, neq p q n) refl

delete-removes :
    (r : Result (List String)) (f o : Option Error) (p : String) (d : Disk)
    → succeeds (delete_at r f p d).0 ≡ true
    → is_content (fetch_at r o (get p (delete_at r f p d).1)) ≡ false
delete-removes (err e) f o p d h = absurd (ground arith)
delete-removes (ok _) (some e) o p d h = absurd (ground arith)
delete-removes (ok _) none (some e) p d h = refl
delete-removes (ok _) none none p d h = rw (get-remove p p d, eq_refl p) refl

delete-keeps :
    (r : Result (List String)) (f : Option Error) (p q : String) (d : Disk)
    → p ≢ q
    → get q (delete_at r f p d).1 ≡ get q d
delete-keeps (err e) f p q d n = refl
delete-keeps (ok _) (some e) p q d n = refl
delete-keeps (ok _) none p q d n = rw (get-remove q p d, neq p q n) refl

opens :
    (b : Broken) (p : String) (d : Disk)
    → b.on_open p ≡ none
    → (local_storage b).fetch p d ≡ fetch_at (resolve p) none (get p d)
unfolding local_storage
opens b p d h = rw h refl

-- The local backend is faithful while the files that it has can be opened.
pub local_storage-IsFaithful :
    (b : Broken) → ((p : String) → b.on_open p ≡ none) → IsFaithful (local_storage b)
unfolding local_storage
local_storage-IsFaithful b h = record {
  stored = λ p x d s.
      opens b p (store_at (resolve p) (b.on_create p) (b.on_write p) p x d).1 (h p)
      ∙ store-reads (resolve p) (b.on_create p) (b.on_write p) p x d s;
  store_other = λ p q x d n.
      fetch-same b q d (store_at (resolve p) (b.on_create p) (b.on_write p) p x d).1
        (store-keeps (resolve p) (b.on_create p) (b.on_write p) p q x d n);
  deleted = λ p d s. delete-removes (resolve p) (b.on_remove p) (b.on_open p) p d s;
  delete_other = λ p q d n.
      fetch-same b q d (delete_at (resolve p) (b.on_remove p) p d).1
        (delete-keeps (resolve p) (b.on_remove p) p q d n);
}

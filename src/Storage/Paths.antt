-- ===== src/Storage/Paths.antt =====
-- The names of stored files: the check of an id (internal/storage/local_storage.go), the path of a
-- file (buildStoragePath in internal/storage/service.go) and the tables between content types and
-- extensions (internal/storage/endpoints.go).
pub mod Apart
use Prim.Native.Char.{Char, code}
use Prim.Native.String.{len, ◌++◌}
use text.Mathlib.Text.{starts_with}
use prappser_spaces.Base.{
  ℕ, ◌+◌, ◌≡◌, String, Bool, true, false, not, ◌&&◌, ◌||◌, Option, none, some, List, [], ◌∷◌, ◌==◌,
  ltb, eqb, if◌then◌else◌,
}
use prappser_spaces.Base.Dict.{Dict, get}
use prappser_spaces.Base.Int.{ℤ}
use prappser_spaces.Result.{Result, guard, invalid_path}

-- The codes of '.', '/' and the backslash.
abbrev dot : ℕ
dot = 46

abbrev slash : ℕ
slash = 47

abbrev backslash : ℕ
backslash = 92

-- strings.ContainsAny(id, `/\`)
unfoldable pub has_separator : String → Bool
has_separator String.[] = false
has_separator (String.◌∷◌ c s) = eqb (code c) slash || eqb (code c) backslash || has_separator s

-- strings.HasPrefix(id, ".")
abbrev pub is_dotted : String → Bool
is_dotted String.[] = false
is_dotted (String.◌∷◌ c s) = eqb (code c) dot

-- validateStorageID
unfoldable pub validate_storage_id : String → Result (Unit {0})
validate_storage_id id =
    guard (not (id == "" || has_separator id || is_dotted id)) (invalid_path ∷ [])

-- A text has a control byte: below 0x20, or 0x7f. In UTF-8 such a byte is a character.
unfoldable pub has_control : String → Bool
has_control String.[] = false
has_control (String.◌∷◌ c s) = ltb (code c) 32 || eqb (code c) 127 || has_control s

abbrev pub max_content_type_length : ℕ
max_content_type_length = 255

-- isValidContentType, where `parses` is whether mime.ParseMediaType takes the text.
unfoldable pub is_valid_content_type : (parses : String → Bool) → String → Bool
is_valid_content_type parses t =
    not (t == "" || ltb max_content_type_length (len t)) && not (has_control t) && parses t

abbrev pub has_slash : String → Bool
has_slash String.[] = false
has_slash (String.◌∷◌ c s) = eqb (code c) slash || has_slash s

-- filepath.Ext: from the last dot of the last segment.
extension_in : String → Option String
extension_in String.[] = none
extension_in (String.◌∷◌ c s) =
    let rest = extension_in s in
    elim rest [
      | some e ↦ some e
      | none ↦ if eqb (code c) dot && not (has_slash s) then some (String.◌∷◌ c s) else none
    ]

unfoldable pub extension : String → String
unfolding extension_in
extension name = elim (extension_in name) [ none ↦ "" | some e ↦ e ]

has_dot : String → Bool
has_dot String.[] = false
has_dot (String.◌∷◌ c s) = eqb (code c) dot || has_dot s

-- strings.TrimSuffix(path, filepath.Ext(path))
unfoldable pub stem : String → String
unfolding has_dot
stem String.[] = ""
stem (String.◌∷◌ c s) =
    let rest = stem s in
    if eqb (code c) dot && not (has_dot s) && not (has_slash s) then "" else String.◌∷◌ c rest

-- The thumbnail of a file (generateThumbnail).
unfoldable pub thumbnail_path_of : String → String
thumbnail_path_of path = stem path ++ "_thumb.jpg"

-- The switch of extensionFromContentType.
abbrev pub extensions : Dict String
extensions =
    ("image/jpeg", ".jpg")
    ∷ ("image/png", ".png")
    ∷ ("image/gif", ".gif")
    ∷ ("image/webp", ".webp")
    ∷ ("image/bmp", ".bmp")
    ∷ ("image/svg+xml", ".svg")
    ∷ ("video/mp4", ".mp4")
    ∷ ("video/webm", ".webm")
    ∷ ("video/mov", ".mov")
    ∷ ("video/x-msvideo", ".avi")
    ∷ ("video/x-matroska", ".mkv")
    ∷ ("audio/mpeg", ".mp3")
    ∷ ("audio/wav", ".wav")
    ∷ ("audio/ogg", ".ogg")
    ∷ ("audio/flac", ".flac")
    ∷ ("application/pdf", ".pdf")
    ∷ ("application/msword", ".doc")
    ∷ ("application/vnd.openxmlformats-officedocument.wordprocessingml.document", ".docx")
    ∷ ("application/vnd.ms-excel", ".xls")
    ∷ ("application/vnd.openxmlformats-officedocument.spreadsheetml.sheet", ".xlsx")
    ∷ ("application/vnd.ms-powerpoint", ".ppt")
    ∷ ("application/vnd.openxmlformats-officedocument.presentationml.presentation", ".pptx")
    ∷ ("text/plain", ".txt")
    ∷ ("text/csv", ".csv")
    ∷ ("application/json", ".json")
    ∷ ("application/xml", ".xml")
    ∷ ("text/html", ".html")
    ∷ ("application/zip", ".zip")
    ∷ ("application/x-rar-compressed", ".rar")
    ∷ ("application/x-7z-compressed", ".7z")
    ∷ []

unfoldable pub extension_from_content_type : String → String
extension_from_content_type t = elim (get t extensions) [ none ↦ "" | some e ↦ e ]

-- The switch of detectContentType.
abbrev pub content_types : Dict String
content_types =
    ("jpg", "image/jpeg")
    ∷ ("jpeg", "image/jpeg")
    ∷ ("png", "image/png")
    ∷ ("gif", "image/gif")
    ∷ ("webp", "image/webp")
    ∷ ("bmp", "image/bmp")
    ∷ ("svg", "image/svg+xml")
    ∷ ("mp4", "video/mp4")
    ∷ ("webm", "video/webm")
    ∷ ("mov", "video/mov")
    ∷ ("avi", "video/x-msvideo")
    ∷ ("mkv", "video/x-matroska")
    ∷ ("mp3", "audio/mpeg")
    ∷ ("wav", "audio/wav")
    ∷ ("ogg", "audio/ogg")
    ∷ ("flac", "audio/flac")
    ∷ ("pdf", "application/pdf")
    ∷ ("doc", "application/msword")
    ∷ ("docx", "application/vnd.openxmlformats-officedocument.wordprocessingml.document")
    ∷ ("xls", "application/vnd.ms-excel")
    ∷ ("xlsx", "application/vnd.openxmlformats-officedocument.spreadsheetml.sheet")
    ∷ ("ppt", "application/vnd.ms-powerpoint")
    ∷ ("pptx", "application/vnd.openxmlformats-officedocument.presentationml.presentation")
    ∷ ("txt", "text/plain")
    ∷ ("csv", "text/csv")
    ∷ ("json", "application/json")
    ∷ ("xml", "application/xml")
    ∷ ("html", "text/html")
    ∷ ("zip", "application/zip")
    ∷ ("rar", "application/x-rar-compressed")
    ∷ ("7z", "application/x-7z-compressed")
    ∷ []

-- The part behind the last dot, if there is one, where `s` is read from the left.
after_last_dot : String → Option String
after_last_dot String.[] = none
after_last_dot (String.◌∷◌ c s) = elim (after_last_dot s) [
  | some e ↦ some e
  | none ↦ if eqb (code c) dot then some s else none
]

-- detectContentType, where `lower` is strings.ToLower.
unfoldable pub detect_content_type : (lower : String → String) → String → String
unfolding after_last_dot
detect_content_type lower filename = elim (after_last_dot filename) [
  | none ↦ "application/octet-stream"
  | some e ↦
      if e == ""
      then "application/octet-stream"
      else elim (get (lower e) content_types) [ none ↦ "application/octet-stream" | some t ↦ t ]
]

-- `ext := filepath.Ext(filename)`, or that of the content type.
unfoldable pub file_extension : String → String → String
file_extension filename content_type =
    let ext = extension filename in
    if ext == "" then extension_from_content_type content_type else ext

-- buildStoragePath, where `month` is the year and the month of the clock, as "2006/01".
unfoldable pub build_storage_path :
    (month : ℤ → String) → Option String → String → String → String → ℤ → String
build_storage_path month app_id id filename content_type now =
    let prefix : String = elim app_id [ none ↦ "_user" | some a ↦ a ] in
    prefix ++ "/" ++ month now ++ "/" ++ id ++ file_extension filename content_type

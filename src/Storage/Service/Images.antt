-- ===== src/Storage/Service/Images.antt =====
-- What a processed image leaves of a table: the steps behind an upload of the storage service
-- (internal/storage/service.go) change dimensions and thumbnails only.
use text.Mathlib.Text.{starts_with}
use prappser_spaces.Base.{String, ◌≡◌, Option, none, some, ◌==◌, inl, inr, Bool-cases}
use prappser_spaces.Base.Int.{ℤ}
use prappser_spaces.Result.{ok}
use prappser_spaces.Storage.{Bytes, Storage}
use prappser_spaces.Storage.Paths.{thumbnail_path_of}
use prappser_spaces.Storage.Repository.{Table, update_dimensions, update_thumbnail}
use prappser_spaces.Storage.Run.{Service, State, on_disk}
use prappser_spaces.Storage.Run.Hoare.{
  Keeps, bind-Hoare, caught-Hoare, ignored-Hoare, change-Hoare, lift-Keeps, give-Keeps,
}
use prappser_spaces.Storage.Service.{
  save_image, image_steps, process_image, process_size, generate_thumbnail, with_thumbnail,
  save_dimensions, save_thumbnail,
}

-- A predicate that images do not touch: no update of dimensions and thumbnails does, nor does the
-- file of the thumbnail of `path`.
pub record IsBlindToImages {Disk : Type 0} (o : Service Disk) (path : String)
    (P : State Disk → Type 0) : Type 0 where
  pub dimensions :
      (id : String) (w h : ℤ) (st : State Disk) (t : Table)
      → P st
      → update_dimensions id w h st.table ≡ ok t
      → P (record st { table = t })
  pub thumbnail :
      (id q : String) (st : State Disk) (t : Table)
      → P st
      → update_thumbnail id q st.table ≡ ok t
      → P (record st { table = t })
  pub file : (x : Bytes) → Keeps P (on_disk (o.backend.store (thumbnail_path_of path) x))

module _ {Disk : Type 0} (o : Service Disk) (P : State Disk → Type 0) where
  generate_thumbnail-Keeps :
      (s : Storage) (x : Bytes)
      → IsBlindToImages o s.storage_path P
      → Keeps P (generate_thumbnail o s x)
  unfolding generate_thumbnail
  generate_thumbnail-Keeps s x b =
      bind-Hoare (caught-Hoare (bind-Hoare (lift-Keeps (o.thumbnail x)) (λ t. b.file t)))
        (λ r. give-Keeps (with_thumbnail o s r))

  process_size-Keeps :
      (s : Storage) (x : Bytes) (size : Option (ℤ × ℤ))
      → IsBlindToImages o s.storage_path P
      → Keeps P (process_size o s x size)
  unfolding process_size
  process_size-Keeps s x none b = give-Keeps s
  process_size-Keeps s x (some (w, h)) b =
      generate_thumbnail-Keeps (record s { width = some w; height = some h }) x b

  save_dimensions-Keeps :
      (path : String)
      → IsBlindToImages o path P
      → (s : Storage) (w h : Option ℤ) → Keeps P (save_dimensions o s w h)
  unfolding save_dimensions
  save_dimensions-Keeps path b s none h = give-Keeps tt
  save_dimensions-Keeps path b s (some w) none = give-Keeps tt
  save_dimensions-Keeps path b s (some w) (some h) = ignored-Hoare (
      change-Hoare o.faults.on_update (update_dimensions s.id w h)
        (λ st t p e. b.dimensions s.id w h st t p e))

  save_thumbnail-Keeps :
      (path : String) → IsBlindToImages o path P → (s : Storage) → Keeps P (save_thumbnail o s)
  unfolding save_thumbnail
  save_thumbnail-Keeps path b s = elim (Bool-cases (s.thumbnail_path == "")) [
    | inl e ↦ rw e (give-Keeps tt)
    | inr e ↦ rw e (
        ignored-Hoare (
          change-Hoare o.faults.on_update (update_thumbnail s.id s.thumbnail_path)
            (λ st t p q. b.thumbnail s.id s.thumbnail_path st t p q)))
  ]

  image_steps-Keeps :
      (s : Storage) (x : Bytes) → IsBlindToImages o s.storage_path P → Keeps P (image_steps o s x)
  unfolding image_steps process_image
  image_steps-Keeps s x b = bind-Hoare (process_size-Keeps s x (o.image_size x) b) (λ s'.
      bind-Hoare (save_dimensions-Keeps s.storage_path b s' s'.width s'.height)
        (λ _. bind-Hoare (save_thumbnail-Keeps s.storage_path b s') (λ _. give-Keeps s')))

  pub save_image-Keeps :
      (s : Storage) (x : Bytes) → IsBlindToImages o s.storage_path P → Keeps P (save_image o s x)
  unfolding save_image
  save_image-Keeps s x b = elim (Bool-cases (starts_with s.content_type "image/")) [
    | inl e ↦ rw e (image_steps-Keeps s x b)
    | inr e ↦ rw e (give-Keeps s)
  ]

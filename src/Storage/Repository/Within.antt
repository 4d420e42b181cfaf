-- ===== src/Storage/Repository/Within.antt =====
-- A quota on the bytes of an uploader (checkQuota in internal/storage/service.go), under each
-- statement of the repository (internal/storage/repository.go).
use mathlib.Core.Path.{subst}
use prappser_spaces.Base.{
  ℕ, String, ◌≡◌, refl, sym, Bool, not, none, some, ◌∷◌, ◌==◌, map, filter, any, All, inl, inr,
  arith, eq_iff, Bool-cases,
}
use prappser_spaces.Base.Members.{All-filter}
use prappser_spaces.Base.Int.{ℤ, pos, ◌+ℤ◌, ◌≤ℤ◌}
use prappser_spaces.Result.{ok}
use prappser_spaces.Storage.{Storage, Status}
use prappser_spaces.Storage.Repository.{
  Row, Table, has_id, in_application_row, is_stale, mark, sum_sizes, update_row, update,
  update_status, update_dimensions, update_thumbnail, create_storage, delete_storage,
  delete_by_application_id, delete_stale_pending, mark_referenced, delete_unreferenced,
}
use prappser_spaces.Storage.Repository.Sums.{
  IsCounted, SameSize, sum_sizes-filter, sum_sizes-map, All-map-IsCounted, update_row-SameSize,
  mark-SameSize, le_trans,
}

-- The sizes count, and those of `key` sum up to no more than the quota.
pub record IsWithin (key : String) (quota : ℤ) (t : Table) : Type 0 where
  pub counted : All IsCounted t.rows
  pub within : sum_sizes key t.rows ≤ℤ quota

-- Room for one more file of `uploader`, if that is `key`.
pub record HasRoom (key : String) (quota : ℤ) (uploader : String) (size : ℤ) (t : Table)
    : Type 0 where
  pub now : IsWithin key quota t
  pub room : uploader ≡ key → size +ℤ sum_sizes key t.rows ≤ℤ quota

module _ (key : String) (quota : ℤ) where
  pub IsWithin-rows :
      (t t' : Table) → t'.rows ≡ t.rows → IsWithin key quota t → IsWithin key quota t'
  IsWithin-rows t t' e w = record {
    counted = subst (λ l. All IsCounted l) (sym e) w.counted;
    within = subst (λ l. sum_sizes key l ≤ℤ quota) (sym e) w.within;
  }

  IsWithin-filter :
      (p : Row → Bool) (t t' : Table)
      → t'.rows ≡ filter p t.rows
      → IsWithin key quota t
      → IsWithin key quota t'
  IsWithin-filter p t t' e w = record {
    counted = subst (λ l. All IsCounted l) (sym e) (All-filter IsCounted p t.rows w.counted);
    within =
        subst (λ l. sum_sizes key l ≤ℤ quota) (sym e)
          (le_trans (sum_sizes key (filter p t.rows)) (sum_sizes key t.rows) quota
            (sum_sizes-filter key p t.rows w.counted) w.within);
  }

  IsWithin-map :
      (f : Row → Row) (t t' : Table)
      → t'.rows ≡ map f t.rows
      → SameSize f
      → IsWithin key quota t
      → IsWithin key quota t'
  IsWithin-map f t t' e h w = record {
    counted = subst (λ l. All IsCounted l) (sym e) (All-map-IsCounted f t.rows h w.counted);
    within =
        subst (λ l. sum_sizes key l ≤ℤ quota) (sym e)
          (subst (λ n. n ≤ℤ quota) (sym (sum_sizes-map key f t.rows h)) w.within);
  }

  update-IsWithin :
      (g : Storage → Storage) (id : String) (t t' : Table)
      → ((s : Storage)
          → ((g s).uploader_public_key ≡ s.uploader_public_key) × ((g s).size_bytes ≡ s.size_bytes))
      → IsWithin key quota t
      → update g id t ≡ ok t'
      → IsWithin key quota t'
  unfolding update
  update-IsWithin g id t t' h w e = elim (Bool-cases (any (has_id id) t.rows)) [
    | inl x ↦ IsWithin-map (update_row g id) t t' (ground arith) (update_row-SameSize g id h) w
    | inr x ↦ absurd (ground arith)
  ]

  pub update_status-IsWithin :
      (id : String) (status : Status) (t t' : Table)
      → IsWithin key quota t
      → update_status id status t ≡ ok t'
      → IsWithin key quota t'
  unfolding update_status
  update_status-IsWithin id status t t' w e =
      update-IsWithin (λ s. record s { status = status }) id t t' (λ s. (refl, refl)) w e

  pub update_thumbnail-IsWithin :
      (id path : String) (t t' : Table)
      → IsWithin key quota t
      → update_thumbnail id path t ≡ ok t'
      → IsWithin key quota t'
  unfolding update_thumbnail
  update_thumbnail-IsWithin id path t t' w e =
      update-IsWithin (λ s. record s { thumbnail_path = path }) id t t' (λ s. (refl, refl)) w e

  pub update_dimensions-IsWithin :
      (id : String) (x y : ℤ) (t t' : Table)
      → IsWithin key quota t
      → update_dimensions id x y t ≡ ok t'
      → IsWithin key quota t'
  unfolding update_dimensions
  update_dimensions-IsWithin id x y t t' w e =
      update-IsWithin (λ s. record s { width = some x; height = some y }) id t t'
        (λ s. (refl, refl)) w e

  pub delete_storage-IsWithin :
      (id : String) (t t' : Table)
      → IsWithin key quota t
      → delete_storage id t ≡ ok t'
      → IsWithin key quota t'
  unfolding delete_storage
  delete_storage-IsWithin id t t' w e = elim (Bool-cases (any (has_id id) t.rows)) [
    | inl x ↦ IsWithin-filter (λ r. not (has_id id r)) t t' (ground arith) w
    | inr x ↦ absurd (ground arith)
  ]

  pub create_storage-IsWithin :
      (s : Storage) (t t' : Table)
      → pos 0 ≤ℤ s.size_bytes
      → HasRoom key quota s.uploader_public_key s.size_bytes t
      → create_storage s t ≡ ok t'
      → IsWithin key quota t'
  unfolding create_storage
  create_storage-IsWithin s t t' n h e = elim (Bool-cases (any (has_id s.id) t.rows)) [
    | inl x ↦ absurd (ground arith)
    | inr x ↦
        let r : t'.rows ≡ record { file = s; last_referenced_at = none } ∷ t.rows = ground arith in
        record {
          counted = subst (λ l. All IsCounted l) (sym r) (n, h.now.counted);
          within =
              subst (λ l. sum_sizes key l ≤ℤ quota) (sym r)
                (elim (Bool-cases (s.uploader_public_key == key)) [
                  | inl u ↦ rw u (h.room ((eq_iff s.uploader_public_key key).0 u))
                  | inr u ↦ rw u h.now.within
                ]);
        }
  ]

  -- The statements that cannot fail.
  pub total-IsWithin :
      (t : Table)
      → IsWithin key quota t
      → ((app_id : String) → IsWithin key quota (delete_by_application_id app_id t))
        × ((cutoff : ℤ) → IsWithin key quota (delete_stale_pending cutoff t).1)
        × ((referenced : String → Bool) (now : ℤ)
            → IsWithin key quota (mark_referenced referenced now t))
        × ((referenced : String → Bool) (cutoff : ℤ) (limit : ℕ)
            → IsWithin key quota (delete_unreferenced referenced cutoff limit t).1)
  unfolding delete_by_application_id delete_stale_pending mark_referenced delete_unreferenced
  total-IsWithin t w = (
    λ app_id.
        IsWithin-filter (λ r. not (in_application_row app_id r)) t
          (delete_by_application_id app_id t) refl w,
    λ cutoff.
        IsWithin-filter (λ r. not (is_stale cutoff r)) t (delete_stale_pending cutoff t).1 refl w,
    λ referenced now.
        IsWithin-map (mark referenced now) t (mark_referenced referenced now t) refl
          (mark-SameSize referenced now) w,
    λ referenced cutoff limit.
        IsWithin-filter _ t (delete_unreferenced referenced cutoff limit t).1 refl w,
  )

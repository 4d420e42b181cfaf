-- ===== src/Scenarios/Blobs.antt =====
-- A purge that spares a file, and an upload whose last chunk is missing (internal/storage).
use prappser_spaces.Base.{◌≡◌, refl, none, some, [], ◌∷◌, ◌==◌, All, inl, inr, ap, sym, ◌∙◌}
use mathlib.Core.Path.{subst}
use prappser_spaces.Base.Dict.{get, remove}
use prappser_spaces.Base.Int.{pos}
use prappser_spaces.Result.{ok}
use prappser_spaces.Storage.{pending}
use prappser_spaces.Storage.Backend.Local.{Disk, resolve, split, local_url, local_storage}
use prappser_spaces.Storage.Paths.{stem}
use prappser_spaces.Storage.Repository.{
  Row, get_storage_by_id, get_chunks, delete_chunks, update, update_status, mark_referenced,
  delete_unreferenced, oldest_first,
}
use prappser_spaces.Storage.Run.{Service, State}
use prappser_spaces.Storage.Service.{populate_urls, save_image, chunk_path, decimal}
use prappser_spaces.Storage.Service.Chunked.{complete_chunked_upload}
use prappser_spaces.Storage.Service.Cleanup.{purge_unreferenced}
use prappser_spaces.Storage.Service.Cleanup.Spares.{IsFree, IsSeparate, purge_spares}
use prappser_spaces.Scenarios.{apart}
use prappser_spaces.Scenarios.Files.{
  service, service-IsFaithful, text, stored_note_row, stored_long, half,
}

-- Two old files, of which the second is referred to.
abbrev long_row : Row
long_row = record { file = stored_long; last_referenced_at = none }

abbrev two_files : State Disk
two_files = record {
  table = record { rows = stored_note_row ∷ long_row ∷ []; chunks = [] };
  disk = ("app/2026/01/f1.txt", text) ∷ ("app/2026/01/f2.txt", 1 ∷ 2 ∷ 3 ∷ 4 ∷ []) ∷ [];
}

abbrev referring : Service Disk
referring = record service { referenced = λ id. id == "f2" }

two_files-IsSeparate : IsSeparate two_files.table.rows
two_files-IsSeparate a b (inl e) (inl f) n = absurd (n (ap (λ r. r.file.id) (sym e ∙ f)))
two_files-IsSeparate a b (inl e) (inr (inl f)) n =
    subst (λ r. IsFree a.file.storage_path r.file) f
      (subst (λ r. IsFree r.file.storage_path long_row.file) e
        (apart "app/2026/01/f2.txt" "app/2026/01/f1.txt" refl, apart "" "app/2026/01/f1.txt" refl))
two_files-IsSeparate a b (inl e) (inr (inr k)) n = absurd k
two_files-IsSeparate a b (inr (inr k)) j n = absurd k
two_files-IsSeparate a b (inr (inl e)) (inr (inr k)) n = absurd k
two_files-IsSeparate a b (inr (inl e)) (inl f) n =
    subst (λ r. IsFree a.file.storage_path r.file) f
      (subst (λ r. IsFree r.file.storage_path stored_note_row.file) e
        (apart "app/2026/01/f1.txt" "app/2026/01/f2.txt" refl, apart "" "app/2026/01/f2.txt" refl))
two_files-IsSeparate a b (inr (inl e)) (inr (inl f)) n =
    absurd (n (ap (λ r. r.file.id) (sym e ∙ f)))

purge_spares_example :
    (let run = purge_unreferenced referring (pos 1800000000) 5 two_files in
      All
        (λ r.
          referring.backend.fetch r.file.storage_path run.1.disk
          ≡ referring.backend.fetch r.file.storage_path two_files.disk)
        run.1.table.rows)
purge_spares_example =
    purge_spares referring service-IsFaithful (pos 1800000000) 5 two_files two_files-IsSeparate

-- The purge took the first file, and left the second with its content.
purged_run :
    (let run = purge_unreferenced referring (pos 1800000000) 5 two_files in
      run.1 ≡ record {
        table = record {
          rows = record long_row { last_referenced_at = some (pos 1767225600) } ∷ [];
          chunks = [];
        };
        disk = ("app/2026/01/f2.txt", 1 ∷ 2 ∷ 3 ∷ 4 ∷ []) ∷ [];
      })
unfolding purge_unreferenced delete_unreferenced mark_referenced oldest_first local_storage resolve
    split remove
purged_run = refl

-- An upload of four bytes in two chunks, of which only the first has come, is completed.
abbrev first_half : State Disk
first_half = record {
  table = record {
    rows =
        record {
          file = record stored_long { status = pending; url = "" };
          last_referenced_at = none;
        }
        ∷ [];
    chunks = half (pos 0) ∷ [];
  };
  disk = ("app/2026/01/f2.txt.chunk.0", 1 ∷ 2 ∷ []) ∷ [];
}

short_run :
    (complete_chunked_upload service "f2" "" first_half).0
    ≡ ok (record stored_long { size_bytes = pos 2 })
unfolding complete_chunked_upload get_storage_by_id get_chunks local_storage resolve split
    chunk_path decimal get save_image update_status update delete_chunks populate_urls local_url
    stem
short_run = refl

-- ===== src/Vault/FileRepository.antt =====
-- internal/repository/file_repository.go.
use bytevault.Prelude.{
  ℕ, suc, ◌+◌, Bool, true, false, not, ◌&&◌, ◌||◌, Option, none, some, List, [], ◌∷◌, ◌++◌, map,
  ltb, ◌==◌, if◌then◌else◌, is_some, points_to,
}
use bytevault.Prelude.Table.{find?, update, delete, select}
use bytevault.Prelude.Text.{Text, same}
use bytevault.Prelude.Action.{query}
use bytevault.Vault.{
  Status, uploading, failed, pending_scan, ready, active, File, Db, query_failed, Service,
}

abbrev pub is_uploading : Status → Bool
is_uploading uploading = true
is_uploading _ = false

abbrev pub is_ready : Status → Bool
is_ready ready = true
is_ready _ = false

abbrev pub is_pending_scan : Status → Bool
is_pending_scan pending_scan = true
is_pending_scan _ = false

-- `status != "READY" && status != "ACTIVE"` is refused.
abbrev pub is_available : Status → Bool
is_available ready = true
is_available active = true
is_available _ = false

abbrev pub is_live : File → Bool
is_live f = not (is_some f.deleted_at)

abbrev pub is_live_id : ℕ → File → Bool
is_live_id id f = f.id == id && is_live f

-- `folder_id IS NULL` for no folder, `folder_id = $3` else.
abbrev pub is_in : Option ℕ → File → Bool
is_in none f = not (is_some f.folder_id)
is_in (some folder) f = points_to f.folder_id folder

-- The row, whose id the table gives, and the file that the caller goes on with. The statement names
-- neither the thumbnail nor the columns that have a default.
abbrev pub row_of : File → ℕ → ℕ → File
row_of f now id = record f {
  id = id;
  created_at = now;
  thumbnail_key = none;
  downloads = 0;
  deleted_at = none;
}

abbrev pub insert_file : File → ℕ → Db → File × Db
insert_file f now d = (
  record f { id = d.next_file; created_at = now },
  record d { files = row_of f now d.next_file ∷ d.files; next_file = suc d.next_file },
)

unfoldable pub create : File → Service File
create f = query query_failed (insert_file f)

unfoldable pub find_by_id : ℕ → Service (Option File)
find_by_id id = query query_failed (λ now d. (find? (is_live_id id) d.files, d))

-- `UPDATE files SET ... WHERE id = $1`: no rows are no error.
unfoldable pub update_file : (ℕ → File → File) → ℕ → Service Unit
update_file f id =
    query query_failed λ now d. (tt, record d { files = update (λ r. r.id == id) (f now) d.files })

abbrev pub set_public : Bool → ℕ → File → File
set_public is_public now f = record f { is_public = is_public }

unfoldable pub update_public_status : ℕ → Bool → Service Unit
update_public_status id is_public = update_file (set_public is_public) id

abbrev pub set_status : Status → ℕ → File → File
set_status status now f = record f { status = status }

unfoldable pub update_status : ℕ → Status → Service Unit
update_status id status = update_file (set_status status) id

abbrev pub set_folder : Option ℕ → ℕ → File → File
set_folder folder now f = record f { folder_id = folder }

unfoldable pub move_row : ℕ → Option ℕ → Service Unit
move_row id folder = update_file (set_folder folder) id

abbrev pub set_filename : Text → ℕ → File → File
set_filename name now f = record f { filename = name }

unfoldable pub rename_row : ℕ → Text → Service Unit
rename_row id name = update_file (set_filename name) id

-- A file that counts for the storage of a user.
abbrev pub is_counted : ℕ → File → Bool
is_counted user f = f.user_id == user && is_live f && (is_ready f.status || is_uploading f.status)

-- SUM(file_size) of the rows.
unfoldable pub total_size : List File → ℕ
total_size [] = 0
total_size (f ∷ fs) = f.file_size + total_size fs

unfoldable pub get_user_storage_used : ℕ → Service ℕ
get_user_storage_used user =
    query query_failed (λ now d. (total_size (select (is_counted user) d.files), d))

abbrev pub set_deleted : ℕ → File → File
set_deleted now f = record f { deleted_at = some now }

unfoldable pub soft_delete : ℕ → Service Unit
soft_delete id = update_file set_deleted id

abbrev pub deleted_before : ℕ → File → Bool
deleted_before cutoff f = elim f.deleted_at [ none ↦ false | some t ↦ ltb t cutoff ]

abbrev pub storage_key_of : File → ℕ
storage_key_of f = f.storage_key

-- DELETE ... RETURNING storage_key
unfoldable pub purge_soft_deleted_before : ℕ → Service (List ℕ)
purge_soft_deleted_before cutoff = query query_failed λ now d. (
  map storage_key_of (select (deleted_before cutoff) d.files),
  record d { files = delete (deleted_before cutoff) d.files },
)

abbrev pub keys_of : File → List ℕ
keys_of f =
    f.storage_key ∷ elim f.thumbnail_key [ none ↦ [] | some t ↦ if ltb 0 t then t ∷ [] else [] ]

abbrev pub all_keys : List File → List ℕ
all_keys [] = []
all_keys (f ∷ fs) = keys_of f ++ all_keys fs

unfoldable pub get_all_storage_keys : Service (List ℕ)
get_all_storage_keys = query query_failed (λ now d. (all_keys d.files, d))

abbrev pub count_download : ℕ → File → File
count_download now f = record f { downloads = f.downloads + 1 }

unfoldable pub increment_downloads : ℕ → Service Unit
increment_downloads id = update_file count_download id

abbrev pub set_thumbnail : ℕ → ℕ → File → File
set_thumbnail key now f = record f { thumbnail_key = some key }

unfoldable pub update_thumbnail_key : ℕ → ℕ → Service Unit
update_thumbnail_key id key = update_file (set_thumbnail key) id

-- Here in the order of the table, not by name.
unfoldable pub list_public_files_by_folder_id : ℕ → Service (List File)
list_public_files_by_folder_id folder = query query_failed λ now d. (
  select
      (λ f.
        points_to f.folder_id folder
        && (is_ready f.status || is_pending_scan f.status)
        && is_live f)
      d.files,
  d,
)

unfoldable pub update_public_status_by_folder_id : ℕ → Bool → Service Unit
update_public_status_by_folder_id folder is_public = query query_failed λ now d. (
  tt,
  record d {
    files =
        update (λ f. points_to f.folder_id folder && is_live f) (set_public is_public now) d.files;
  },
)

abbrev pub is_named : ℕ → Text → Option ℕ → File → Bool
is_named user name folder f =
    f.user_id == user && same f.filename name && is_in folder f && is_live f

-- The newest row: ORDER BY created_at DESC LIMIT 1.
unfoldable pub find_by_filename_and_folder : ℕ → Text → Option ℕ → Service (Option File)
find_by_filename_and_folder user name folder =
    query query_failed (λ now d. (find? (is_named user name folder) d.files, d))

unfoldable pub find_by_content_hash : ℕ → ℕ → Service (Option File)
find_by_content_hash user hash = query query_failed λ now d. (
  find? (λ f. f.user_id == user && points_to f.content_hash hash && is_ready f.status && is_live f)
      d.files,
  d,
)

pub record Replacement : Type 0 where
  pub size : ℕ
  pub content_type : Text
  pub storage_key : ℕ
  pub tags : List Text
  pub content_hash : Option ℕ

abbrev pub replace_row : Replacement → ℕ → File → File
replace_row r now f = record f {
  file_size = r.size;
  content_type = r.content_type;
  storage_key = r.storage_key;
  tags = r.tags;
  content_hash = r.content_hash;
  status = uploading;
}

unfoldable pub update_file_for_replacement : ℕ → Replacement → Service Unit
update_file_for_replacement id r = update_file (replace_row r) id

abbrev pub set_hash : ℕ → ℕ → File → File
set_hash hash now f = record f { content_hash = some hash }

unfoldable pub update_content_hash : ℕ → ℕ → Service Unit
update_content_hash id hash = update_file (set_hash hash) id

-- The metrics are columns that no method reads.
unfoldable pub update_upload_metrics : ℕ → Service Unit
update_upload_metrics id = update_file (λ now f. f) id

abbrev pub is_claimable : ℕ → File → Bool
is_claimable id f = f.id == id && is_uploading f.status

-- Whether the file was still being uploaded; then it is FAILED.
unfoldable pub claim_stale_upload : ℕ → Service Bool
claim_stale_upload id = query query_failed λ now d. (
  is_some (find? (is_claimable id) d.files),
  record d { files = update (is_claimable id) (set_status failed now) d.files },
)

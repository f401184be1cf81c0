-- ===== src/Vault/Completion.antt =====
-- The end of an upload in internal/service/file_service.go: `CompleteUpload` and `Upload`.
use bytevault.Prelude.{ℕ, zero, suc, false, Option, none, some, [], ◌∷◌, ◌==◌, if◌then◌else◌}
use bytevault.Prelude.Text.{Text, bytes}
use bytevault.Prelude.Action.{
  Result, ok, err, pure, raise, query, attempt, ignore, require, or_raise, effect, ◌>>=◌, ◌>>◌,
}
use bytevault.Content.{detect_heic_magic_bytes, validate_magic_bytes}
use bytevault.Vault.{
  pending_scan, failed, File, StorageCall, put, delete, Error, query_failed, storage_failed,
  not_found, unauthorized, bad_header, bad_content, Service, Env,
}
use bytevault.Vault.FileRepository.{
  create, find_by_id, update_status, update_content_hash, update_upload_metrics,
}
use bytevault.Vault.Uploads.{validate_file}

-- The type that is detected: Go's, but for HEIC.
abbrev pub detected_type : Env → Text → Text
detected_type env header =
    if detect_heic_magic_bytes header then bytes "image/heic" else env.detect header

-- A call of the storage that may have had its effect though it reports a failure.
unfoldable pub storage_call : StorageCall → Service Unit
storage_call c = effect storage_failed (λ now d. record d { calls = c ∷ d.calls })

-- `enqueueMediaProcessingJob`, which runs beside the request; its failure is not looked at.
unfoldable pub enqueue_job : ℕ → Service Unit
enqueue_job id = ignore (query query_failed (λ now d. (tt, record d { jobs = id ∷ d.jobs })))

-- The file, for its owner.
unfoldable pub find_own : ℕ → ℕ → Service File
find_own id user = do
  row ← find_by_id id
  f ← or_raise row not_found
  require (f.user_id == user) unauthorized
  pure f

unfoldable pub reject : File → Error → Service Unit
reject f e = do
  ignore (storage_call (delete f.storage_key))
  ignore (update_status f.id failed)
  raise e

-- The signature validation, at a download that failed or gave a header or no header.
unfoldable pub check_header : Env → File → Result Error (Option Text) → Service Unit
check_header env f (err e) = do ignore (update_status f.id failed); raise storage_failed
check_header env f (ok none) = reject f bad_header
check_header env f (ok (some header)) =
    if validate_magic_bytes (detected_type env header) f.content_type f.filename
    then pure tt
    else reject f bad_content

unfoldable pub validate_stored : Env → File → Service Unit
validate_stored env f = do
  header ← attempt (query storage_failed (λ now d. (env.first_bytes f.storage_key, d)))
  check_header env f header

unfoldable pub save_hash : ℕ → Option ℕ → Service Unit
save_hash id none = pure tt
save_hash id (some zero) = pure tt
save_hash id (some (suc hash)) = ignore (update_content_hash id (suc hash))

-- `CompleteUpload`; the number of chunks, which is set to at least 1, makes the metrics be saved.
unfoldable pub complete_upload : Env → ℕ → ℕ → Option ℕ → Service Unit
complete_upload env id user hash = do
  f ← find_own id user
  validate_stored env f
  save_hash id hash
  ignore (update_upload_metrics id)
  update_status id pending_scan
  enqueue_job f.id

pub record Body : Type 0 where
  pub filename : Text
  pub size : ℕ
  pub content_type : Text
  pub folder_id : Option ℕ
  pub header : Option Text

abbrev pub uploaded_file : Env → ℕ → Body → File
uploaded_file env user b = record {
  id = 0;
  user_id = user;
  filename = b.filename;
  storage_key = env.fresh_key;
  thumbnail_key = none;
  file_size = b.size;
  content_type = b.content_type;
  is_public = false;
  status = pending_scan;
  folder_id = b.folder_id;
  created_at = 0;
  deleted_at = none;
  downloads = 0;
  tags = [];
  content_hash = none;
}

-- What was stored is removed if its row could not be made.
unfoldable pub keep_or_delete : Env → Result Error File → Service File
keep_or_delete env (ok f) = do enqueue_job f.id; pure f
keep_or_delete env (err e) = do ignore (storage_call (delete env.fresh_key)); raise e

-- `Upload`
unfoldable pub upload : Env → ℕ → Body → Service File
upload env user b = do
  validate_file user b.filename b.size b.content_type
  header ← or_raise b.header bad_header
  require (validate_magic_bytes (detected_type env header) b.content_type b.filename) bad_content
  storage_call (put env.fresh_key)
  made ← attempt (create (uploaded_file env user b))
  keep_or_delete env made

-- ===== src/Vault/Multipart.antt =====
-- Uploads in parts, in internal/service/file_service.go.
use bytevault.Prelude.{ℕ, zero, suc, Bool, Option, none, some, List, [], ◌∷◌}
use bytevault.Prelude.Text.{Text}
use bytevault.Prelude.Action.{
  Result, ok, err, pure, raise, query, attempt, ignore, require, effect, when, ◌>>=◌, ◌>>◌,
}
use bytevault.Vault.{
  pending_scan, failed, File, initiate, complete, abort, Error, initiate_failed, storage_failed,
  not_uploading, conflict, Service, Env,
}
use bytevault.Vault.FileRepository.{
  is_uploading, create, find_by_filename_and_folder, update_status, replace_row,
  update_file_for_replacement, update_upload_metrics,
}
use bytevault.Vault.Uploads.{
  ConflictAction, replace, keep_both, other, Upload, validate_file,
  resolve_non_conflicting_filename, replacement, starts_public, new_file,
}
use bytevault.Vault.Completion.{storage_call, enqueue_job, find_own, validate_stored, save_hash}

-- What a client is given: the file, the id of the upload, and a URL for each part.
pub record Session : Type 0 where
  pub file : File
  pub upload_id : ℕ
  pub parts : List (ℕ × ℕ)

unfoldable pub sign_part : Env → ℕ → ℕ → ℕ → Service (ℕ × ℕ)
sign_part env key upload part =
    query storage_failed (λ now d. ((part, env.part_url key upload part), d))

-- The loop over the parts, from a number on.
unfoldable pub sign_parts : Env → ℕ → ℕ → ℕ → ℕ → Service (List (ℕ × ℕ))
sign_parts env key upload next zero = pure []
sign_parts env key upload next (suc n) = do
  p ← sign_part env key upload next
  ps ← sign_parts env key upload (suc next) n
  pure (p ∷ ps)

-- An initiation that reports failure may have begun the upload, but its id is not known then.
unfoldable pub initiate_upload : Env → Service Unit
initiate_upload env =
    effect initiate_failed
      λ now d. record d { calls = initiate env.fresh_key env.fresh_upload_id ∷ d.calls }

-- `_ = s.storage.AbortMultipartUpload(...)`, then the error.
unfoldable pub or_abort : {A : Type 0} → Env → Result Error A → Service A
or_abort env (ok a) = pure a
or_abort env (err e) = do ignore (storage_call (abort env.fresh_key env.fresh_upload_id)); raise e

-- The upload is begun and its parts are signed, or it is aborted.
unfoldable pub begin_parts : Env → ℕ → Service (List (ℕ × ℕ))
begin_parts env part_count = do
  initiate_upload env
  urls ← attempt (sign_parts env env.fresh_key env.fresh_upload_id 1 part_count)
  or_abort env urls

unfoldable pub replace_in_parts : Env → Upload → ℕ → File → Service Session
replace_in_parts env u part_count existing = do
  parts ← begin_parts env part_count
  let r = replacement u [] env.fresh_key
  replaced ← attempt (update_file_for_replacement existing.id r)
  or_abort env replaced
  let file : File = record (replace_row r 0 existing) { tags = existing.tags }
  pure (record { file = file; upload_id = env.fresh_upload_id; parts = parts })

unfoldable pub fresh_in_parts : Env → ℕ → Upload → Text → ℕ → Service Session
fresh_in_parts env user u name part_count = do
  parts ← begin_parts env part_count
  is_public ← starts_public u.folder_id
  made ← attempt (create (record (new_file env user u name is_public) { tags = [] }))
  file ← or_abort env made
  pure (record { file = file; upload_id = env.fresh_upload_id; parts = parts })

unfoldable pub on_conflict_in_parts : Env → ℕ → Upload → ℕ → ConflictAction → File → Service Session
on_conflict_in_parts env user u part_count replace existing =
    replace_in_parts env u part_count existing
on_conflict_in_parts env user u part_count keep_both existing = do
  name ← resolve_non_conflicting_filename env user u.filename u.folder_id
  fresh_in_parts env user u name part_count
on_conflict_in_parts env user u part_count other existing = raise (conflict existing)

-- `CreateMultipartUploadSession`
unfoldable pub create_multipart_upload_session : Env → ℕ → Upload → ℕ → Service Session
create_multipart_upload_session env user u part_count = do
  validate_file user u.filename u.size u.content_type
  existing ← find_by_filename_and_folder user u.filename u.folder_id
  elim existing [
    | none ↦ fresh_in_parts env user u u.filename part_count
    | some f ↦ on_conflict_in_parts env user u part_count u.conflict_action f
  ]

unfoldable pub fail_unless : ℕ → Result Error (Unit {0}) → Service Unit
fail_unless id (ok x) = pure tt
fail_unless id (err e) = do ignore (update_status id failed); raise storage_failed

-- `CompleteMultipartUpload`; `metrics` says whether one of them is positive.
unfoldable pub complete_multipart_upload : Env → ℕ → ℕ → ℕ → Option ℕ → Bool → Service Unit
complete_multipart_upload env id user upload hash metrics = do
  f ← find_own id user
  joined ← attempt (storage_call (complete f.storage_key upload))
  fail_unless id joined
  validate_stored env f
  save_hash id hash
  update_status id pending_scan
  enqueue_job f.id
  when metrics (ignore (update_upload_metrics id))

-- `AbortMultipartUpload`
unfoldable pub abort_multipart_upload : ℕ → ℕ → ℕ → Service Unit
abort_multipart_upload id user upload = do
  f ← find_own id user
  ignore (storage_call (abort f.storage_key upload))
  update_status id failed

unfoldable pub refresh_parts : Env → ℕ → ℕ → List ℕ → Service (List (ℕ × ℕ))
refresh_parts env key upload [] = pure []
refresh_parts env key upload (n ∷ ns) = do
  p ← sign_part env key upload n
  ps ← refresh_parts env key upload ns
  pure (p ∷ ps)

-- `RefreshMultipartPartURLs`
unfoldable pub refresh_multipart_part_urls : Env → ℕ → ℕ → ℕ → List ℕ → Service (List (ℕ × ℕ))
refresh_multipart_part_urls env id user upload numbers = do
  f ← find_own id user
  require (is_uploading f.status) not_uploading
  refresh_parts env f.storage_key upload numbers

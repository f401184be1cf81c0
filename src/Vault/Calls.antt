-- ===== src/Vault/Calls.antt =====
-- Histories of the calls that users and visitors make of internal/service/file_service.go; ListUserFiles,
-- a read, is left out.
use bytevault.Prelude.{ℕ, Bool, Option, List, [], ◌∷◌}
use bytevault.Prelude.Text.{Text}
use bytevault.Prelude.Action.{ignore}
use bytevault.Vault.{Db, Service, Env}
use bytevault.Vault.Uploads.{Upload, check_conflicts, create_upload_session}
use bytevault.Vault.Completion.{Body, complete_upload, upload}
use bytevault.Vault.Multipart.{
  create_multipart_upload_session, complete_multipart_upload, abort_multipart_upload,
  refresh_multipart_part_urls,
}
use bytevault.Vault.Access.{
  download, get_file_details, get_thumbnail, download_public, get_public_metadata,
  get_public_thumbnail_url,
}
use bytevault.Vault.Owner.{toggle_share_status, move_file, rename_file, delete_file}

pub data Call : Type 0 where
  check : Option ℕ → List Text → Call
  open_session : Upload → Call
  open_parts : Upload → ℕ → Call
  complete : ℕ → Option ℕ → Call
  complete_parts : ℕ → ℕ → Option ℕ → Bool → Call
  abort_parts : ℕ → ℕ → Call
  refresh : ℕ → ℕ → List ℕ → Call
  send : Body → Call
  fetch : ℕ → Bool → Call
  details : ℕ → Call
  thumbnail : ℕ → Call
  share : ℕ → Bool → Call
  move : ℕ → Option ℕ → Call
  rename_to : ℕ → Text → Call
  remove : ℕ → Call
  fetch_public : ℕ → Bool → Call
  metadata_public : ℕ → Call
  thumbnail_public : ℕ → Call

-- Who calls (a visitor of the public methods is any number), what comes from outside, and which of the
-- queries and external calls fail.
pub record Event : Type 0 where
  pub caller : ℕ
  pub now : ℕ
  pub env : Env
  pub faults : List Bool
  pub call : Call

unfoldable pub perform : Env → ℕ → Call → Service Unit
perform env u (check folder names) = ignore (check_conflicts u folder names)
perform env u (open_session r) = ignore (create_upload_session env u r)
perform env u (open_parts r n) = ignore (create_multipart_upload_session env u r n)
perform env u (complete id hash) = complete_upload env id u hash
perform env u (complete_parts id up hash metrics) =
    complete_multipart_upload env id u up hash metrics
perform env u (abort_parts id up) = abort_multipart_upload id u up
perform env u (refresh id up numbers) = ignore (refresh_multipart_part_urls env id u up numbers)
perform env u (send body) = ignore (upload env u body)
perform env u (fetch id skip) = ignore (download env id u skip)
perform env u (details id) = ignore (get_file_details env id u)
perform env u (thumbnail id) = ignore (get_thumbnail env id u)
perform env u (share id is_public) = toggle_share_status id u is_public
perform env u (move id folder) = move_file id u folder
perform env u (rename_to id new_name) = rename_file id u new_name
perform env u (remove id) = delete_file id u
perform env u (fetch_public id skip) = ignore (download_public env id skip)
perform env u (metadata_public id) = ignore (get_public_metadata env id)
perform env u (thumbnail_public id) = ignore (get_public_thumbnail_url env id)

unfoldable pub step : Event → Db → Db
step e d = (perform e.env e.caller e.call (record { now = e.now; faults = e.faults; db = d })).1.db

unfoldable pub run : List Event → Db → Db
run [] d = d
run (e ∷ es) d = run es (step e d)

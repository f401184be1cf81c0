-- ===== src/Ephemeral/Calls.antt =====
-- The calls that reach the service, each with its time, its outside answers and its failures.
use bytevault.Prelude.{ℕ, Bool, Option, List, [], ◌∷◌}
use bytevault.Prelude.Int.{ℤ}
use bytevault.Prelude.Action.{World, ignore}
use bytevault.Ephemeral.{Settings, Db, Service, Env}
use bytevault.Ephemeral.Repository.{update_settings}
use bytevault.Ephemeral.Upload.{
  Request, create_upload_session, create_multipart_upload_session, refresh_multipart_part_urls,
  update_live_progress, complete_multipart_upload, abort_multipart_upload,
}
use bytevault.Ephemeral.Download.{get_metadata, request_download, admin_burn_share}
use bytevault.Ephemeral.Purge.{cleanup_ephemeral}
use bytevault.Ephemeral.Listing.{list_all_for_admin}

pub data Call : Type 0 where
  configure : Settings → Call
  open_session : Request → Call
  open_multipart : Request → ℕ → Bool → Call
  refresh : ℕ → ℕ → List ℕ → Call
  progress : ℕ → ℤ → ℤ → Call
  complete : ℕ → ℕ → Call
  abort : ℕ → ℕ → Call
  metadata : ℕ → Call
  download : ℕ → Option ℕ → Call
  admin_burn : ℕ → Call
  cleanup : ℕ → Call
  listing : ℕ → ℕ → Call

pub record Event : Type 0 where
  pub env : Env
  pub now : ℕ
  pub faults : List Bool
  pub call : Call

-- A call, its answer put aside.
unfoldable pub perform : Env → Call → Service Unit
perform env (configure s) = update_settings s
perform env (open_session r) = ignore (create_upload_session env r)
perform env (open_multipart r n live) = ignore (create_multipart_upload_session env r n live)
perform env (refresh token upload numbers) =
    ignore (refresh_multipart_part_urls token upload numbers)
perform env (progress token pct bytes) = update_live_progress token pct bytes
perform env (complete token upload) = complete_multipart_upload env token upload
perform env (abort token upload) = abort_multipart_upload token upload
perform env (metadata token) = ignore (get_metadata token)
perform env (download token password) = ignore (request_download env token password)
perform env (admin_burn token) = admin_burn_share token
perform env (cleanup rounds) = ignore (cleanup_ephemeral rounds)
perform env (listing limit offset) = ignore (list_all_for_admin limit offset)

abbrev pub at_event : Event → Db → World Db
at_event e d = record { now = e.now; faults = e.faults; db = d }

unfoldable pub step : Event → Db → Db
step e d = (perform e.env e.call (at_event e d)).1.db

unfoldable pub run : Db → List Event → Db
run d [] = d
run d (e ∷ es) = run (step e d) es

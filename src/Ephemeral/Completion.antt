-- ===== src/Ephemeral/Completion.antt =====
-- An upload that is completed can be downloaded.
use bytevault.Prelude.{
  ℕ, ◌≤◌, true, false, Option, none, some, ◌∷◌, ◌≡◌, ◌*◌, refl, ◌==◌, if◌then◌else◌,
}
use bytevault.Prelude.Table.{find?, update}
use bytevault.Prelude.Table.Keys.{find?-update_key}
use bytevault.Prelude.Action.{ok, ◌>>=◌}
use bytevault.Ephemeral.{
  get_object, minute, active, Share, LiveProgress, complete_multipart, Db, Env,
}
use bytevault.Ephemeral.Repository.{find_by_token, update_status, forget_progress, storage_call}
use bytevault.Ephemeral.Upload.{
  is_open_at, same_session, is_oversize, settle_upload, complete_multipart_upload,
}
use bytevault.Ephemeral.Download.{password_ok, request_download}
use bytevault.Ephemeral.Change.{has_token, with_status}
use bytevault.Ephemeral.Answers.{reliable, servable-download}

abbrev without : ℕ → (ℕ → Option LiveProgress) → ℕ → Option LiveProgress
without token progress t = if t == token then none else progress t

abbrev activated : Env → ℕ → ℕ → Share → Db → Db
activated env token upload s d = record d {
  progress = without token d.progress;
  calls = complete_multipart s.storage_key upload ∷ d.calls;
  shares = update (has_token token) (with_status active) d.shares;
}

completes :
    (env : Env) (token upload now : ℕ) (d : Db) (s : Share)
    → find? (has_token token) d.shares ≡ some s
    → is_open_at s now ≡ true
    → same_session s upload ≡ true
    → is_oversize s (env.object_size s.storage_key) ≡ false
    → complete_multipart_upload env token upload (reliable now d)
      ≡ (ok tt, reliable now (activated env token upload s d))
unfolding complete_multipart_upload find_by_token settle_upload update_status forget_progress
    storage_call ◌>>=◌
completes env token upload now d s found open_ session fits = rw (found, open_, session, fits) refl

-- When nothing fails, an upload that is completed in its own session, in time and with an object of allowed
-- size, and that no other call came to since, is given for download to whoever has its password, at a time
-- no later than its expiry.
pub complete-download :
    (env : Env) (token upload now later : ℕ) (password : Option ℕ) (d : Db) (s : Share)
    → find? (has_token token) d.shares ≡ some s
    → is_open_at s now ≡ true
    → same_session s upload ≡ true
    → is_oversize s (env.object_size s.storage_key) ≡ false
    → later ≤ s.expires_at
    → password_ok env s.password_hash password ≡ true
    → let d' = (complete_multipart_upload env token upload (reliable now d)).1.db in
      (request_download env token password (reliable later d')).0
      ≡ ok (get_object s.storage_key (30 * minute))
complete-download env token upload now later password d s found open_ session fits in_time
      admitted =
    let done = completes env token upload now d s found open_ session fits in
    rw done (
      servable-download env token password later _ (with_status active s)
        (find?-update_key (λ r. r.token) token (with_status active) d.shares s (λ r. refl) found)
        (record { active = refl; in_time = in_time; admitted = admitted; fits = fits }))

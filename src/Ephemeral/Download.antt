-- ===== src/Ephemeral/Download.antt =====
-- internal/service/ephemeral_service.go, the recipient's side: metadata, download, and the
-- administrator's burn.
use Prim.Native.String.{String}
use text.Mathlib.Text.{starts_with}
use bytevault.Prelude.{
  ℕ, zero, suc, ◌*◌, Bool, true, false, not, ◌&&◌, ◌||◌, Option, none, some, ◌∷◌, ltb, leb,
  if◌then◌else◌, is_set,
}
use bytevault.Prelude.Action.{
  Result, ok, err, pure, raise, gets, query, attempt, ignore, require, when, ◌>>=◌, ◌>>◌,
}
use bytevault.Ephemeral.{
  burned, Share, LiveProgress, Url, get_object, delete, delete_after, Error, not_found,
  query_failed, storage_failed, oversize, still_uploading, bad_password, Service, Env, minute,
}
use bytevault.Ephemeral.Repository.{
  is_uploading, is_active, is_burned, find_by_token, update_status, mark_burned,
  increment_download_and_check_burn, storage_call, presign, forget_progress,
}
use bytevault.Ephemeral.Upload.{is_oversize}

-- What a recipient sees of a share.
pub record Metadata : Type 0 where
  pub share : Share
  pub progress : Option LiveProgress
  pub preview : Option Url

abbrev is_safe_image : String → Bool
is_safe_image t =
    starts_with t "image/jpeg" || starts_with t "image/png" || starts_with t "image/webp"

-- A preview would be a download that is not counted: it is given for a picture of at most 10 MB that
-- has no password and may be downloaded more than once.
unfoldable pub has_preview : Share → Bool
has_preview s =
    is_active s.status
    && not (is_set s.password_hash)
    && ltb 1 s.max_downloads
    && is_safe_image s.content_type
    && leb s.file_size (10 * 1024 * 1024)

abbrev ok_or_none : Result Error Url → Option Url
ok_or_none (ok u) = some u
ok_or_none (err e) = none

unfoldable pub preview_url : Share → Bool → Service (Option Url)
preview_url s false = pure none
preview_url s true = do
  made ← attempt (presign (get_object s.storage_key (15 * minute)))
  pure (ok_or_none made)

-- BURNED, or past its expiry.
abbrev pub is_gone_at : Share → ℕ → Bool
is_gone_at s now = is_burned s.status || ltb s.expires_at now

unfoldable pub get_metadata : ℕ → Service Metadata
get_metadata token = do
  s ← find_by_token token
  now ← gets (λ t d. t)
  require (not (is_gone_at s now)) not_found
  progress ← gets (λ t d. if is_uploading s.status then d.progress token else none)
  preview ← preview_url s (has_preview s)
  pure (record { share = s; progress = progress; preview = preview })

-- The password, if the share has one: bcrypt compares it with the hash.
unfoldable pub password_ok : Env → Option ℕ → Option ℕ → Bool
password_ok env none given = true
password_ok env (some zero) given = true
password_ok env (some (suc h)) none = false
password_ok env (some (suc h)) (some p) = env.check_password (suc h) p

unfoldable pub remove_oversize : Share → Bool → Service Share
remove_oversize s false = pure s
remove_oversize s true = do
  ignore (storage_call (delete s.storage_key))
  ignore (update_status s.token burned)
  raise oversize

-- `RequestDownload` up to the check of the object's size.
unfoldable pub check_download : Env → ℕ → Option ℕ → Service Share
check_download env token password = do
  s ← find_by_token token
  now ← gets (λ t d. t)
  require (not (is_gone_at s now)) not_found
  require (is_active s.status) still_uploading
  require (password_ok env s.password_hash password) bad_password
  size ← query storage_failed (λ t d. (env.object_size s.storage_key, d))
  remove_oversize s (is_oversize s size)

-- The object goes half an hour after the last download began.
unfoldable pub burn_if : Share → Bool → Service Unit
burn_if s false = pure tt
burn_if s true = do
  ignore (mark_burned s.id)
  ignore (storage_call (delete_after s.storage_key (30 * minute)))

-- `RequestDownload` from the increment on, with the share as it was read.
unfoldable pub serve_download : Share → Service Url
serve_download s = do
  (count, burn) ← increment_download_and_check_burn s.id
  url ← presign (get_object s.storage_key (30 * minute))
  burn_if s burn
  ignore (query query_failed (λ t d. (tt, record d { egress = (s.id, s.file_size) ∷ d.egress })))
  pure url

unfoldable pub request_download : Env → ℕ → Option ℕ → Service Url
request_download env token password = do s ← check_download env token password; serve_download s

unfoldable pub admin_burn_share : ℕ → Service Unit
admin_burn_share token = do
  s ← find_by_token token
  when (ltb 0 s.storage_key) (ignore (storage_call (delete s.storage_key)))
  forget_progress token
  update_status token burned

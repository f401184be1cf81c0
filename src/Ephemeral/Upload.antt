-- ===== src/Ephemeral/Upload.antt =====
-- internal/service/ephemeral_service.go, the sender's side: sessions, parts, progress, completion.
use Prim.Native.String.{String}
use bytevault.Prelude.{
  ℕ, zero, suc, ◌+◌, ◌*◌, ◌/◌, Bool, true, false, not, ◌&&◌, ◌||◌, Option, none, some, List, [],
  ◌∷◌, length, ltb, leb, ◌==◌, if◌then◌else◌, is_set, points_to,
}
use bytevault.Prelude.Int.{ℤ, pos, negsuc}
use bytevault.Prelude.Action.{
  Result, ok, err, pure, raise, gets, query, attempt, ignore, require, modify, ◌>>=◌, ◌>>◌,
}
use bytevault.Ephemeral.{
  Status, uploading, active, burned, Share, Settings, Url, put_object, put_part, delete,
  initiate_multipart, complete_multipart, abort_multipart, Error, storage_failed, too_large,
  rate_limited, bad_part_count, bad_part_number, not_uploading, wrong_session, oversize, Service,
  Env, minute, gib, max_allowed_limit, max_parts_allowed,
}
use bytevault.Ephemeral.Repository.{
  is_uploading, get_settings, create, find_by_token, update_status, delete_by_token,
  count_uploads_by_ip_in_window, storage_call, presign, forget_progress,
}

-- A failed count lets the upload pass.
abbrev below_rate : Result Error ℕ → ℕ → Bool
below_rate (ok n) limit = ltb n limit
below_rate (err e) limit = true

unfoldable pub check_rate : Option ℕ → ℕ → Service Unit
check_rate none limit = pure tt
check_rate (some zero) limit = pure tt
check_rate (some (suc ip)) limit = do
  count ← attempt (count_uploads_by_ip_in_window (suc ip))
  require (below_rate count limit) rate_limited

-- The hash of a password that is given and not empty; a failure of bcrypt leaves the share open.
unfoldable pub password_hash : Env → Option ℕ → Option ℕ
password_hash env none = none
password_hash env (some zero) = none
password_hash env (some (suc p)) = env.hash_password (suc p)

-- The arguments that the two session methods share.
pub record Request : Type 0 where
  pub filename : ℕ
  pub size : ℕ
  pub content_type : String
  pub password : Option ℕ
  pub ip : Option ℕ
  pub ua : Option ℕ

unfoldable pub new_share : Env → Settings → ℕ → Request → Option ℕ → Status → Bool → Share
new_share env s now r upload status live = record {
  id = 0;
  token = env.token;
  storage_key = env.key_of env.token r.filename;
  upload_id = upload;
  filename = r.filename;
  file_size = r.size;
  content_type = r.content_type;
  status = status;
  max_downloads = s.max_downloads;
  download_count = 0;
  ip_address = r.ip;
  user_agent = r.ua;
  password_hash = password_hash env r.password;
  expires_at = now + s.expiry_minutes * minute;
  is_live = live;
  created_at = now;
  burned_at = none;
}

-- `CreateUploadSession`; its limit is `int64(MaxFileSizeGb * 1024 * 1024 * 1024)`.
unfoldable pub create_upload_session : Env → Request → Service (Share × Url)
unfolding new_share
create_upload_session env r = do
  s ← get_settings
  require (leb r.size s.max_file_size) too_large
  check_rate r.ip s.rate_limit
  url ← presign (put_object (env.key_of env.token r.filename) (60 * minute))
  now ← gets (λ t d. t)
  share ← create (new_share env s now r none active false)
  pure (share, url)

-- One round of the loop over the parts, with the rest of the loop: if a URL cannot be made, the
-- multipart upload is aborted.
unfoldable pub with_part :
    ℕ → ℕ → ℕ → Service (List (ℕ × Url)) → Result Error Url → Service (List (ℕ × Url))
with_part key upload i rest (ok url) = do urls ← rest; pure ((i, url) ∷ urls)
with_part key upload i rest (err e) = do
  ignore (storage_call (abort_multipart key upload))
  raise storage_failed

unfoldable pub part_urls : ℕ → ℕ → ℕ → ℕ → Service (List (ℕ × Url))
part_urls key upload i zero = pure []
part_urls key upload i (suc n) = do
  made ← attempt (presign (put_part key upload i (60 * minute)))
  with_part key upload i (part_urls key upload (i + 1) n) made

-- Where the row cannot be inserted, the multipart upload is aborted.
unfoldable pub abort_on_failure : ℕ → ℕ → Result Error Share → Service Share
abort_on_failure key upload (ok share) = pure share
abort_on_failure key upload (err e) = do ignore (storage_call (abort_multipart key upload)); raise e

-- `CreateMultipartUploadSession`; its limit is `int64(MaxFileSizeGb) * 1024 * 1024 * 1024`.
unfoldable pub create_multipart_upload_session :
    Env → Request → ℕ → Bool → Service (Share × List (ℕ × Url))
unfolding new_share
create_multipart_upload_session env r part_count live = do
  s ← get_settings
  require (leb r.size (s.max_file_size / gib * gib)) too_large
  check_rate r.ip s.rate_limit
  require (ltb 0 part_count && leb part_count max_parts_allowed) bad_part_count
  let key = env.key_of env.token r.filename
  storage_call (initiate_multipart key)
  urls ← part_urls key env.new_upload_id 1 part_count
  now ← gets (λ t d. t)
  made ← attempt (create (new_share env s now r (some env.new_upload_id) uploading live))
  share ← abort_on_failure key env.new_upload_id made
  pure (share, urls)

-- `share.UploadID != nil && *share.UploadID != "" && *share.UploadID == uploadID`
abbrev pub same_session : Share → ℕ → Bool
same_session share upload = is_set share.upload_id && points_to share.upload_id upload

-- UPLOADING and not past its expiry.
abbrev pub is_open_at : Share → ℕ → Bool
is_open_at share now = is_uploading share.status && not (ltb share.expires_at now)

abbrev pub contains : List ℕ → ℕ → Bool
contains [] n = false
contains (m ∷ ms) n = m == n || contains ms n

abbrev pub add_once : List ℕ → ℕ → List ℕ
add_once seen n = if contains seen n then seen else n ∷ seen

-- The loop of `RefreshMultipartPartURLs`: duplicates are skipped, a bad number ends it.
unfoldable pub refresh_part : ℕ → ℕ → ℕ → Service (List (ℕ × Url)) → Bool → Service (List (ℕ × Url))
refresh_part key upload n rest true = rest
refresh_part key upload n rest false = do
  url ← presign (put_part key upload n (60 * minute))
  urls ← rest
  pure ((n, url) ∷ urls)

unfoldable pub refresh_urls : ℕ → ℕ → List ℕ → List ℕ → Service (List (ℕ × Url))
refresh_urls key upload seen [] = pure []
refresh_urls key upload seen (n ∷ ns) = do
  require (ltb 0 n && leb n max_parts_allowed) bad_part_number
  refresh_part key upload n (refresh_urls key upload (add_once seen n) ns) (contains seen n)

unfoldable pub refresh_multipart_part_urls : ℕ → ℕ → List ℕ → Service (List (ℕ × Url))
refresh_multipart_part_urls token upload numbers = do
  share ← find_by_token token
  now ← gets (λ t d. t)
  require (is_open_at share now) not_uploading
  require (same_session share upload) wrong_session
  require (ltb 0 (length numbers) && leb (length numbers) max_parts_allowed) bad_part_count
  refresh_urls share.storage_key upload [] numbers

-- A percentage is kept in 0..100, a number of bytes in 0..size.
abbrev pub clamp : ℕ → ℤ → ℕ
clamp top (pos n) = if ltb top n then top else n
clamp top (negsuc n) = 0

unfoldable pub update_live_progress : ℕ → ℤ → ℤ → Service Unit
update_live_progress token pct bytes = do
  share ← find_by_token token
  now ← gets (λ t d. t)
  require (is_open_at share now) not_uploading
  modify λ t d. (
    tt,
    record d {
      progress = λ k.
          if k == token
          then some (record {
            progress_pct = clamp 100 pct;
            uploaded_bytes = clamp share.file_size bytes;
            updated_at = t;
          })
          else d.progress k;
    },
  )

-- The object is larger than declared, or than any share may be.
abbrev pub is_oversize : Share → ℕ → Bool
is_oversize share size = ltb share.file_size size || ltb max_allowed_limit size

-- An oversize object is removed and its share burned.
unfoldable pub settle_upload : ℕ → ℕ → Bool → Service Unit
settle_upload token key true = do
  ignore (storage_call (delete key))
  ignore (update_status token burned)
  forget_progress token
  raise oversize
settle_upload token key false = do forget_progress token; update_status token active

unfoldable pub complete_multipart_upload : Env → ℕ → ℕ → Service Unit
complete_multipart_upload env token upload = do
  share ← find_by_token token
  now ← gets (λ t d. t)
  require (is_open_at share now) not_uploading
  require (same_session share upload) wrong_session
  storage_call (complete_multipart share.storage_key upload)
  size ← query storage_failed (λ t d. (env.object_size share.storage_key, d))
  settle_upload token share.storage_key (is_oversize share size)

unfoldable pub abort_multipart_upload : ℕ → ℕ → Service Unit
abort_multipart_upload token upload = do
  share ← find_by_token token
  require (is_uploading share.status) not_uploading
  require (same_session share upload) wrong_session
  ignore (storage_call (abort_multipart share.storage_key upload))
  forget_progress token
  delete_by_token token

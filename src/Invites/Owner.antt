-- ===== src/Invites/Owner.antt =====
-- The owner's and the scheduler's methods of internal/service/upload_invite_service.go.
use bytevault.Prelude.{
  ℕ, zero, suc, ◌+◌, ◌*◌, Bool, true, ◌&&◌, Option, none, some, List, [], ◌∷◌, ltb, ◌==◌,
  if◌then◌else◌,
}
use bytevault.Prelude.Text.{Text}
use bytevault.Prelude.Int.{ℤ, pos, negsuc}
use bytevault.Prelude.Action.{
  Result, ok, pure, gets, query, attempt, ignore, require, or_raise, when, ◌>>=◌, ◌>>◌,
}
use bytevault.Invites.{
  active, revoked, expired, Invite, Error, not_found, unverified, too_many_invites, not_active,
  query_failed, Service, Env, hour, gib,
}
use bytevault.Invites.Folders.{make_folder, claim_upload, delete_object}
use bytevault.Invites.Repository.{
  is_active, create, find_by_token, find_by_id, update_status, set_status, count_active_by_owner,
  release_usage, StaleUpload, list_stale_uploads,
}

-- A number that is not positive is the default, one above the maximum the maximum.
unfoldable pub default_and_clamp : ℕ → ℕ → ℤ → ℕ
default_and_clamp standard most (pos n) =
    if ltb 0 n then (if ltb most n then most else n) else standard
default_and_clamp standard most (negsuc n) = standard

unfoldable pub find_owner : ℕ → Service Unit
find_owner owner = do
  row ← query not_found (λ now d. (d.verified owner, d))
  verified ← or_raise row not_found
  require verified unverified

unfoldable pub passcode_hash : Env → ℕ → Service (Option ℕ)
passcode_hash env zero = pure none
passcode_hash env (suc p) = do
  hash ← or_raise (env.hash_passcode (suc p)) query_failed
  pure (some hash)

-- `CreateInvite`
unfoldable pub create_invite : Env → ℕ → Text → ℤ → ℤ → ℤ → ℕ → Service Invite
unfolding default_and_clamp
create_invite env owner name max_bytes max_files expiry passcode = do
  find_owner owner
  count ← count_active_by_owner owner
  require (ltb count 10) too_many_invites
  let label = env.sanitize name
  folder ← make_folder env owner label env.token
  hash ← passcode_hash env passcode
  now ← gets (λ t d. t)
  create (record {
    id = 0;
    token = env.token;
    owner_id = owner;
    target_folder_id = some folder.id;
    label = label;
    max_total_bytes = default_and_clamp (2 * gib) (5 * gib) max_bytes;
    max_files = default_and_clamp 20 50 max_files;
    used_bytes = 0;
    used_files = 0;
    passcode_hash = hash;
    status = active;
    pending_notify_count = 0;
    last_notified_at = none;
    expires_at = now + default_and_clamp 24 168 expiry * hour;
  })

-- `RevokeInvite`
unfoldable pub revoke_invite : ℕ → ℕ → Service Unit
revoke_invite id owner = do
  i ← find_by_id id
  require (i.owner_id == owner) not_found
  require (is_active i.status) not_active
  update_status id revoked

-- `GetInviteInfo`
unfoldable pub get_invite_info : ℕ → Service Invite
get_invite_info token = do
  i ← find_by_token token
  now ← gets (λ t d. t)
  let past = is_active i.status && ltb i.expires_at now
  when past (ignore (update_status i.id expired))
  pure (if past then set_status expired i else i)

-- One round of the loop of `CleanupAbandonedUploads`, for a file that is claimed.
unfoldable pub clean_up : StaleUpload → Result Error Bool → Service Unit
clean_up u (ok true) = do
  ignore (delete_object u.file.storage_key)
  ignore (release_usage u.invite_id u.file.file_size)
clean_up u _ = pure tt

unfoldable pub clean_up_all : List StaleUpload → Service Unit
clean_up_all [] = pure tt
clean_up_all (u ∷ us) = do
  claimed ← attempt (claim_upload u.file.id)
  clean_up u claimed
  clean_up_all us

unfoldable pub cleanup_abandoned_uploads : Service Unit
cleanup_abandoned_uploads = do stale ← list_stale_uploads; clean_up_all stale

-- ===== src/Ephemeral/Purge.antt =====
-- The scheduler's purge: `PurgeExpiredAndBurned` of internal/repository/ephemeral_share_repository.go
-- and `cleanupEphemeral` of internal/notification/scheduler/scheduler.go.
use bytevault.Prelude.{
  ℕ, zero, suc, ◌+◌, ◌*◌, Bool, true, false, ◌&&◌, ◌||◌, Option, none, some, List, [], ◌∷◌, map,
  length, ltb, ◌==◌, if◌then◌else◌, is_set, take,
}
use bytevault.Prelude.Table.{update, select}
use bytevault.Prelude.Action.{Result, ok, err, pure, query, attempt, ignore, ◌>>=◌, ◌>>◌}
use bytevault.Ephemeral.{
  Status, burned, expired, Share, StorageCall, delete, abort_multipart, Error, query_failed,
  Service, minute,
}
use bytevault.Ephemeral.Repository.{
  is_uploading, is_burned, is_expired, is_open, expire_past_due, storage_call,
}

pub record Target : Type 0 where
  pub id : ℕ
  pub storage_key : ℕ
  pub upload_id : Option ℕ
  pub status : Status

-- burned_at < NOW() - INTERVAL '15 minutes' OR burned_at IS NULL
abbrev pub burned_before : Option ℕ → ℕ → Bool
burned_before none now = true
burned_before (some t) now = ltb (t + 15 * minute) now

-- The WHERE clause of the purge.
abbrev pub is_purgeable : ℕ → Share → Bool
is_purgeable now s =
    ltb 0 s.storage_key
    && (is_expired s.status
        || is_open s.status && ltb s.expires_at now
        || is_burned s.status && burned_before s.burned_at now)

abbrev pub target : Share → Target
target s = record {
  id = s.id;
  storage_key = s.storage_key;
  upload_id = s.upload_id;
  status = s.status;
}

unfoldable pub select_targets : Service (List Target)
select_targets =
    query query_failed (λ now d. (map target (take 100 (select (is_purgeable now) d.shares)), d))

abbrev pub burned_or_expired : Status → Status
burned_or_expired burned = burned
burned_or_expired _ = expired

unfoldable pub clear_storage_key : Target → Service Unit
clear_storage_key t = query query_failed λ now d. (
  tt,
  record d {
    shares =
        update (λ r. r.id == t.id)
          (λ r. record r { storage_key = 0; status = burned_or_expired r.status }) d.shares;
  },
)

unfoldable pub clear_keys : List Target → Service Unit
clear_keys [] = pure tt
clear_keys (t ∷ ts) = do ignore (clear_storage_key t); clear_keys ts

-- `PurgeExpiredAndBurned`
unfoldable pub purge_expired_and_burned : Service (List Target)
purge_expired_and_burned = do
  ignore expire_past_due
  targets ← select_targets
  clear_keys targets
  pure targets

abbrev pub value_or_empty : Option ℕ → ℕ
value_or_empty none = 0
value_or_empty (some u) = u

-- The storage call for a target: an upload that never completed is aborted, an object is deleted.
unfoldable pub purge_call : Target → StorageCall
purge_call t =
    if is_uploading t.status && is_set t.upload_id
    then abort_multipart t.storage_key (value_or_empty t.upload_id)
    else delete t.storage_key

unfoldable pub purge_objects : List Target → Service Unit
purge_objects [] = pure tt
purge_objects (t ∷ ts) = do ignore (storage_call (purge_call t)); purge_objects ts

-- A round of the loop of `cleanupEphemeral`, with the rounds after it: a failed query ends it, and so
-- does a batch of less than 100.
unfoldable pub purge_batch : Service Bool → Result Error (List Target) → Service Bool
purge_batch again (err e) = pure true
purge_batch again (ok targets) = do
  purge_objects targets
  if ltb (length targets) 100 then pure true else again

-- The loop, a batch a round; false if the rounds given did not suffice.
unfoldable pub cleanup_ephemeral : ℕ → Service Bool
cleanup_ephemeral zero = pure false
cleanup_ephemeral (suc rounds) = do
  batch ← attempt purge_expired_and_burned
  purge_batch (cleanup_ephemeral rounds) batch

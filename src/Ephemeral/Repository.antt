-- ===== src/Ephemeral/Repository.antt =====
-- internal/repository/ephemeral_share_repository.go and ephemeral_setting_repository.go.
use bytevault.Prelude.{
  ℕ, suc, ◌+◌, ◌*◌, Bool, true, false, ◌&&◌, Option, none, some, ◌∷◌, ltb, leb, ◌==◌, if◌then◌else◌,
  is_some, points_to,
}
use bytevault.Prelude.Table.{find?, update, count_where, select}
use bytevault.Prelude.Table
use bytevault.Prelude.Action.{
  ok, err, Result, pure, query, attempt, effect, or_raise, modify, ◌>>=◌,
}
use bytevault.Ephemeral.{
  Status, uploading, active, ready, burned, expired, Share, Settings, Url, StorageCall, Db, Error,
  not_found, query_failed, storage_failed, Service, minute, default_settings,
}

abbrev pub is_uploading : Status → Bool
is_uploading uploading = true
is_uploading _ = false

abbrev pub is_active : Status → Bool
is_active active = true
is_active _ = false

abbrev pub is_burned : Status → Bool
is_burned burned = true
is_burned _ = false

abbrev pub is_expired : Status → Bool
is_expired expired = true
is_expired _ = false

-- status IN ('ACTIVE', 'READY', 'UPLOADING')
abbrev pub is_open : Status → Bool
is_open active = true
is_open ready = true
is_open uploading = true
is_open _ = false

abbrev pub settings_or_default : Option Settings → Settings
settings_or_default none = default_settings
settings_or_default (some s) = s

abbrev on_failure_default : Result Error Settings → Settings
on_failure_default (ok s) = s
on_failure_default (err e) = default_settings

-- `GetSettings`: a failed query reads as the defaults, so the caller sees no error.
unfoldable pub get_settings : Service Settings
get_settings = do
  found ← attempt (query query_failed (λ now d. (settings_or_default d.settings, d)))
  pure (on_failure_default found)

unfoldable pub update_settings : Settings → Service Unit
update_settings s = query query_failed (λ now d. (tt, record d { settings = some s }))

-- `Create`: the token is unique; the row gets its id and creation time.
abbrev pub stored : Share → ℕ → ℕ → Share
stored s id now = record s { id = id; created_at = now }

abbrev pub insert_row : Share → ℕ → Db → Option Share × Db
insert_row s now d = if is_some (find? (λ r. r.token == s.token) d.shares) then (none, d) else (
  some (stored s d.next_id now),
  record d { shares = stored s d.next_id now ∷ d.shares; next_id = suc d.next_id },
)

unfoldable pub create : Share → Service Share
create s = do row ← query query_failed (insert_row s); or_raise row query_failed

unfoldable pub find_by_token : ℕ → Service Share
find_by_token token = do
  row ← query query_failed (λ now d. (find? (λ r. r.token == token) d.shares, d))
  or_raise row not_found

unfoldable pub update_status : ℕ → Status → Service Unit
update_status token status = query query_failed λ now d. (
  tt,
  record d { shares = update (λ r. r.token == token) (λ r. record r { status = status }) d.shares },
)

unfoldable pub delete_by_token : ℕ → Service Unit
delete_by_token token =
    query query_failed
      λ now d. (tt, record d { shares = Table.delete (λ r. r.token == token) d.shares })

abbrev pub count_download : Share → Share
count_download r = record r { download_count = r.download_count + 1 }

abbrev pub count_row : ℕ → ℕ → Db → Option Share × Db
count_row id now d = (
  find? (λ r. r.id == id) d.shares,
  record d { shares = update (λ r. r.id == id) count_download d.shares },
)

-- The new count, and whether the share has reached its maximum.
abbrev pub burn_test : Share → ℕ × Bool
burn_test before = (before.download_count + 1, leb before.max_downloads (before.download_count + 1))

-- `IncrementDownloadAndCheckBurn`; the row returned by the query is the row before it.
unfoldable pub increment_download_and_check_burn : ℕ → Service (ℕ × Bool)
increment_download_and_check_burn id = do
  row ← query query_failed (count_row id)
  before ← or_raise row query_failed
  pure (burn_test before)

abbrev pub burn_row : ℕ → ℕ → Db → Unit {0} × Db
burn_row id now d = (
  tt,
  record d {
    shares =
        update (λ r. r.id == id) (λ r. record r { status = burned; burned_at = some now }) d.shares;
  },
)

unfoldable pub mark_burned : ℕ → Service Unit
mark_burned id = query query_failed (burn_row id)

abbrev pub day : ℕ
day = 24 * 60 * minute

unfoldable pub count_uploads_by_ip_in_window : ℕ → Service ℕ
count_uploads_by_ip_in_window ip = query query_failed λ now d.
    (count_where (λ r. points_to r.ip_address ip && ltb now (r.created_at + day)) d.shares, d)

-- UPDATE ... SET status = 'EXPIRED' WHERE status IN (...) AND expires_at < NOW()
unfoldable pub expire_past_due : Service Unit
expire_past_due = query query_failed λ now d. (
  tt,
  record d {
    shares =
        update (λ r. is_open r.status && ltb r.expires_at now) (λ r. record r { status = expired })
          d.shares;
  },
)

-- A call of the storage provider.
unfoldable pub storage_call : StorageCall → Service Unit
storage_call c = effect storage_failed (λ now d. record d { calls = c ∷ d.calls })

-- A presigned URL is computed; the storage does not change.
unfoldable pub presign : Url → Service Url
presign u = query storage_failed (λ now d. (u, d))

unfoldable pub forget_progress : ℕ → Service Unit
forget_progress token =
    modify λ now d. (tt, record d { progress = λ t. if t == token then none else d.progress t })

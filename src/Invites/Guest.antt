-- ===== src/Invites/Guest.antt =====
-- The guest's methods of internal/service/upload_invite_service.go.
use bytevault.Prelude.{
  ℕ, zero, suc, ◌+◌, ◌/◌, Bool, true, false, not, ◌&&◌, Option, none, some, List, [], ◌∷◌, ltb, leb,
  ◌==◌, if◌then◌else◌, is_set,
}
use bytevault.Prelude.Action.{
  Result, ok, err, pure, raise, gets, query, attempt, ignore, require, or_raise, when, ◌>>=◌, ◌>>◌,
}
use bytevault.Prelude.Text.{Text, bytes, member, lower, ext}
use bytevault.Vault.{File, Folder, failed}
use bytevault.Vault.FileRepository.{is_uploading}
use bytevault.Invites.{
  InviteStatus, revoked, expired, Invite, Db, Error, not_found, not_active, wrong_passcode,
  no_passcode, no_session, wrong_session, blocked_type, rate_limited, over_capacity, already_final,
  query_failed, Service, Env, hour,
}
use bytevault.Invites.Folders.{
  make_folder, find_folder, find_file, update_file_status, delete_object, open_session,
  complete_file,
}
use bytevault.Invites.Repository.{
  is_active, find_by_token, find_by_file_id, update_status, reserve_usage, release_usage,
  increment_pending_notify, record_file, count_uploads_by_ip_in_window,
}

abbrev pub is_revoked : InviteStatus → Bool
is_revoked revoked = true
is_revoked _ = false

-- A value in Redis that has not lapsed.
abbrev pub live : {A : Type 0} → ℕ → Option (A × ℕ) → Option A
live now none = none
live now (some (a, until)) = if ltb now until then some a else none

-- `CheckPasscodeRateLimit`: the counter is raised; its window of ten minutes begins with the first.
abbrev pub next_attempt : ℕ → Option (ℕ × ℕ) → ℕ × ℕ
next_attempt now none = (1, now + hour / 6)
next_attempt now (some (n, until)) = if ltb now until then (n + 1, until) else (1, now + hour / 6)

abbrev pub raise_attempts : ℕ → ℕ → ℕ → Db → ℕ × Db
raise_attempts ip token now d =
    let a = next_attempt now (d.attempts ip token) in
    (a.0, record d { attempts = λ j t. if j == ip && t == token then some a else d.attempts j t })

-- The test that an invite is active, which marks it where it is past due.
unfoldable pub require_open : Invite → Service Unit
require_open i = do
  require (is_active i.status) not_active
  now ← gets (λ t d. t)
  when (ltb i.expires_at now) (ignore (update_status i.id expired))
  require (not (ltb i.expires_at now)) not_active

unfoldable pub limit_attempts : ℕ → ℕ → Service Unit
limit_attempts zero token = pure tt
limit_attempts (suc ip) token = do
  attempts ← query rate_limited (raise_attempts (suc ip) token)
  require (leb attempts 5) rate_limited

-- The session that a right passcode opens, for an hour.
unfoldable pub store_session : Env → ℕ → Service ℕ
store_session env id = query query_failed λ now d. (
  env.token,
  record d { sessions = λ s. if s == env.token then some (id, now + hour) else d.sessions s },
)

-- `VerifyPasscode`
unfoldable pub verify_passcode : Env → ℕ → ℕ → ℕ → Service ℕ
verify_passcode env token passcode ip = do
  i ← find_by_token token
  require_open i
  require (is_set i.passcode_hash) no_passcode
  limit_attempts ip token
  hash ← or_raise i.passcode_hash no_passcode
  require (env.check_passcode hash passcode) wrong_passcode
  store_session env i.id

-- `validateGuestSession`
unfoldable pub validate_session : Invite → ℕ → Bool → Service Unit
validate_session i session false = pure tt
validate_session i session true = do
  require (ltb 0 session) no_session
  found ← query no_session (λ now d. (live now (d.sessions session), d))
  id ← or_raise found no_session
  require (id == i.id) wrong_session

unfoldable pub validate_guest_session : Invite → ℕ → Service Unit
validate_guest_session i session = validate_session i session (is_set i.passcode_hash)

-- A failed count lets the upload pass.
abbrev below_rate : Result Error ℕ → Bool
below_rate (ok n) = ltb n 50
below_rate (err e) = true

unfoldable pub limit_uploads : ℕ → Service Unit
limit_uploads zero = pure tt
limit_uploads (suc ip) = do
  count ← attempt (count_uploads_by_ip_in_window (suc ip))
  require (below_rate count) rate_limited

abbrev is_present : Result Error (Option Folder) → Bool
is_present (ok (some f)) = true
is_present _ = false

unfoldable pub restore_folder : Env → Invite → ℕ → Bool → Service (Option ℕ)
restore_folder env i folder true = pure (some folder)
restore_folder env i folder false = do
  made ← make_folder env i.owner_id i.label i.token
  pure (some made.id)

-- The target folder; it is made again if the owner deleted it.
unfoldable pub target_folder : Env → Invite → Option ℕ → Service (Option ℕ)
target_folder env i none = pure none
target_folder env i (some folder) = do
  there ← attempt (find_folder folder)
  restore_folder env i folder (is_present there)

-- `BlockedGuestExtensions`
abbrev pub blocked_guest_extensions : List Text
blocked_guest_extensions =
    bytes ".exe"
    ∷ bytes ".bat"
    ∷ bytes ".cmd"
    ∷ bytes ".msi"
    ∷ bytes ".sh"
    ∷ bytes ".ps1"
    ∷ bytes ".dll"
    ∷ bytes ".scr"
    ∷ bytes ".com"
    ∷ bytes ".vbs"
    ∷ bytes ".wsf"
    ∷ bytes ".jar"
    ∷ bytes ".cpl"
    ∷ bytes ".pif"
    ∷ bytes ".hta"
    ∷ bytes ".reg"
    ∷ bytes ".apk"
    ∷ bytes ".ipa"
    ∷ []

unfoldable pub is_blocked : Text → Bool
is_blocked filename = member (lower (ext filename)) blocked_guest_extensions

-- Where no session can be made, what was reserved is released.
unfoldable pub release_on_failure : ℕ → ℕ → Result Error (File × ℕ) → Service (File × ℕ)
release_on_failure id size (ok f) = pure f
release_on_failure id size (err e) = do ignore (release_usage id size); raise e

-- Where the upload cannot be recorded, it fails.
unfoldable pub fail_on_failure : ℕ → ℕ → ℕ → Result Error (Unit {0}) → Service Unit
fail_on_failure id size file (ok x) = pure tt
fail_on_failure id size file (err e) = do
  ignore (release_usage id size)
  ignore (update_file_status file failed)
  raise e

-- `GuestCreateUploadSession`
unfoldable pub guest_create_upload_session : Env → ℕ → Text → ℕ → Text → ℕ → ℕ → Service (File × ℕ)
guest_create_upload_session env token filename size content_type session ip = do
  i ← find_by_token token
  require_open i
  validate_guest_session i session
  require (not (is_blocked filename)) blocked_type
  limit_uploads ip
  folder ← target_folder env i i.target_folder_id
  reserved ← reserve_usage i.id size
  require reserved over_capacity
  made ← attempt (open_session env i.owner_id filename size content_type folder)
  session ← release_on_failure i.id size made
  recorded ← attempt (record_file i.id session.0.id (some ip))
  fail_on_failure i.id size session.0.id recorded
  pure session

unfoldable pub finish : ℕ → ℕ → Result Error (Unit {0}) → Service Unit
finish id size (ok x) = ignore (increment_pending_notify id)
finish id size (err e) = do ignore (release_usage id size); raise e

-- An upload to a revoked invite is removed.
unfoldable pub drop_if_revoked : Invite → File → Bool → Service Unit
drop_if_revoked i f false = pure tt
drop_if_revoked i f true = do
  ignore (delete_object f.storage_key)
  ignore (update_file_status f.id failed)
  ignore (release_usage i.id f.file_size)
  raise not_active

-- `GuestCompleteUpload`
unfoldable pub guest_complete_upload : Env → ℕ → ℕ → Service Unit
guest_complete_upload env token file = do
  i ← find_by_token token
  owning ← find_by_file_id file
  require (owning.id == i.id) not_found
  f ← find_file file
  require (is_uploading f.status) already_final
  drop_if_revoked i f (is_revoked i.status)
  now ← gets (λ t d. t)
  require (is_active i.status && not (ltb i.expires_at now)) not_active
  completed ← attempt (complete_file env file i.owner_id)
  finish i.id f.file_size completed

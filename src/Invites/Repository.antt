-- ===== src/Invites/Repository.antt =====
-- internal/repository/upload_invite_repository.go.
use bytevault.Prelude.{
  ℕ, suc, ◌+◌, ◌-◌, ◌*◌, Bool, true, false, ◌&&◌, ◌||◌, Option, none, some, List, [], ◌∷◌, ◌++◌,
  ltb, leb, ◌==◌, if◌then◌else◌, is_some, points_to,
}
use bytevault.Prelude.Table.{find?, update, count_where}
use bytevault.Prelude.Action.{pure, query, or_raise, ◌>>=◌}
use bytevault.Vault.{File}
use bytevault.Vault.FileRepository.{is_uploading}
use bytevault.Invites.{
  InviteStatus, active, expired, Invite, InviteFile, Db, not_found, query_failed, Service, hour,
}

abbrev pub is_active : InviteStatus → Bool
is_active active = true
is_active _ = false

-- The id is given by the table.
abbrev pub insert_row : Invite → ℕ → Db → Option Invite × Db
insert_row i now d = if is_some (find? (λ r. r.token == i.token) d.invites) then (none, d) else (
  some (record i { id = d.next_id }),
  record d { invites = record i { id = d.next_id } ∷ d.invites; next_id = suc d.next_id },
)

unfoldable pub create : Invite → Service Invite
create i = do row ← query query_failed (insert_row i); or_raise row query_failed

-- The callers treat a failed query as a missing row.
unfoldable pub find_by_token : ℕ → Service Invite
find_by_token token = do
  row ← query not_found (λ now d. (find? (λ r. r.token == token) d.invites, d))
  or_raise row not_found

unfoldable pub find_by_id : ℕ → Service Invite
find_by_id id = do
  row ← query not_found (λ now d. (find? (λ r. r.id == id) d.invites, d))
  or_raise row not_found

abbrev pub set_status : InviteStatus → Invite → Invite
set_status status r = record r { status = status }

-- `UpdateStatus`: a row that is not there is an error.
unfoldable pub update_status : ℕ → InviteStatus → Service Unit
update_status id status = do
  row ← query query_failed λ now d. (
    find? (λ r. r.id == id) d.invites,
    record d { invites = update (λ r. r.id == id) (set_status status) d.invites },
  )
  _ ← or_raise row not_found
  pure tt

-- The WHERE clause of the reservation.
abbrev pub has_room : ℕ → ℕ → ℕ → Invite → Bool
has_room id size now r =
    r.id == id
    && is_active r.status
    && ltb now r.expires_at
    && leb (r.used_bytes + size) r.max_total_bytes
    && leb (r.used_files + 1) r.max_files

abbrev pub reserve : ℕ → Invite → Invite
reserve size r = record r { used_bytes = r.used_bytes + size; used_files = r.used_files + 1 }

unfoldable pub reserve_usage : ℕ → ℕ → Service Bool
reserve_usage id size = query query_failed λ now d. (
  is_some (find? (has_room id size now) d.invites),
  record d { invites = update (has_room id size now) (reserve size) d.invites },
)

-- GREATEST(used_bytes - size, 0), GREATEST(used_files - 1, 0)
abbrev pub release : ℕ → Invite → Invite
release size r = record r { used_bytes = r.used_bytes - size; used_files = r.used_files - 1 }

unfoldable pub release_usage : ℕ → ℕ → Service Unit
release_usage id size =
    query query_failed
      λ now d. (tt, record d { invites = update (λ r. r.id == id) (release size) d.invites })

abbrev pub notify : Invite → Invite
notify r = record r { pending_notify_count = r.pending_notify_count + 1 }

unfoldable pub increment_pending_notify : ℕ → Service Unit
increment_pending_notify id =
    query query_failed
      λ now d. (tt, record d { invites = update (λ r. r.id == id) notify d.invites })

unfoldable pub record_file : ℕ → ℕ → Option ℕ → Service Unit
record_file invite_id file_id ip = query query_failed λ now d. (
  tt,
  record d {
    invite_files =
        record { invite_id = invite_id; file_id = file_id; ip_address = ip; created_at = now }
        ∷ d.invite_files;
  },
)

unfoldable pub count_uploads_by_ip_in_window : ℕ → Service ℕ
count_uploads_by_ip_in_window ip = query query_failed λ now d. (
  count_where (λ r. points_to r.ip_address ip && ltb now (r.created_at + 24 * hour)) d.invite_files,
  d,
)

unfoldable pub count_active_by_owner : ℕ → Service ℕ
count_active_by_owner owner = query query_failed λ now d. (
  count_where (λ r. r.owner_id == owner && is_active r.status && ltb now r.expires_at) d.invites,
  d,
)

abbrev pub is_stale : ℕ → Invite → Bool
is_stale now r = is_active r.status && leb r.expires_at now

unfoldable pub expire_stale_invites : Service ℕ
expire_stale_invites = query query_failed λ now d. (
  count_where (is_stale now) d.invites,
  record d { invites = update (is_stale now) (set_status expired) d.invites },
)

-- The invite that a file came by: a join of both tables.
abbrev pub invite_of : List InviteFile → ℕ → Invite → Bool
invite_of [] file i = false
invite_of (r ∷ rs) file i = r.file_id == file && r.invite_id == i.id || invite_of rs file i

unfoldable pub find_by_file_id : ℕ → Service Invite
find_by_file_id file = do
  row ← query not_found (λ now d. (find? (invite_of d.invite_files file) d.invites, d))
  or_raise row not_found

pub record StaleUpload : Type 0 where
  pub invite_id : ℕ
  pub file : File

-- The rows of the join for one row of the audit table.
abbrev pub stale_of : ℕ → List File → InviteFile → List StaleUpload
stale_of now [] r = []
stale_of now (f ∷ fs) r =
    if f.id == r.file_id && is_uploading f.status && ltb (r.created_at + 2 * hour) now
    then record { invite_id = r.invite_id; file = f } ∷ stale_of now fs r
    else stale_of now fs r

abbrev pub stale_uploads : ℕ → List File → List InviteFile → List StaleUpload
stale_uploads now fs [] = []
stale_uploads now fs (r ∷ rs) = stale_of now fs r ++ stale_uploads now fs rs

unfoldable pub list_stale_uploads : Service (List StaleUpload)
list_stale_uploads =
    query query_failed (λ now d. (stale_uploads now d.vault.files d.invite_files, d))

-- ===== src/Invites/Notify.antt =====
-- The batched notifications of an owner: `FlushPendingNotifications` and `FlushPendingForInvite` of
-- internal/repository/upload_invite_repository.go, and what the service sends for them.
use bytevault.Prelude.{
  ℕ, ◌+◌, ◌*◌, ◌/◌, ◌<◌, ◌≤◌, Bool, true, ◌&&◌, ◌⊎◌, Option, none, some, List, [], ◌∷◌, map, ltb,
  ◌==◌, if◌then◌else◌, ◌≡◌,
}
use bytevault.Prelude.Table.{update, select}
use bytevault.Prelude.Action.{query}
use bytevault.Invites.{Invite, Db, query_failed, Service, hour}

-- last_notified_at IS NULL OR last_notified_at < NOW() - INTERVAL '2 minutes'
abbrev pub is_due : Option ℕ → ℕ → Bool
is_due none now = true
is_due (some t) now = ltb (t + hour / 30) now

abbrev pub is_pending : ℕ → Invite → Bool
is_pending now i = ltb 0 i.pending_notify_count && is_due i.last_notified_at now

abbrev pub flushed : ℕ → Invite → Invite
flushed now i = record i { pending_notify_count = 0; last_notified_at = some now }

-- What is told to the owner of an invite: how many files arrived.
pub record Batch : Type 0 where
  pub invite_id : ℕ
  pub owner_id : ℕ
  pub count : ℕ

abbrev pub batch_of : Invite → Batch
batch_of i = record { invite_id = i.id; owner_id = i.owner_id; count = i.pending_notify_count }

-- Both repository methods read the rows and reset them in one statement; the service sends a batch
-- for each row.
abbrev pub flush_where : (ℕ → Invite → Bool) → ℕ → Db → List Batch × Db
flush_where p now d = (
  map batch_of (select (p now) d.invites),
  record d { invites = update (p now) (flushed now) d.invites },
)

unfoldable pub flush_pending_notifications : Service (List Batch)
flush_pending_notifications = query query_failed (flush_where is_pending)

abbrev pub is_pending_of : ℕ → ℕ → Invite → Bool
is_pending_of id now i = i.id == id && ltb 0 i.pending_notify_count

unfoldable pub flush_pending_for_invite : ℕ → Service (List Batch)
flush_pending_for_invite id = query query_failed (flush_where (is_pending_of id))

-- The files that wait for an invite, and those that batches tell of it.
abbrev pub waiting : ℕ → List Invite → ℕ
waiting id [] = 0
waiting id (i ∷ is) = (if i.id == id then i.pending_notify_count else 0) + waiting id is

abbrev pub told : ℕ → List Batch → ℕ
told id [] = 0
told id (b ∷ bs) = (if b.invite_id == id then b.count else 0) + told id bs

abbrev pub minute : ℕ
minute = 60_000_000_000

-- Files are waiting, and the owner was never told or was last told more than two minutes ago.
pub record IsTold (now : ℕ) (i : Invite) : Type 0 where
  pub some_waiting : 0 < i.pending_notify_count
  pub rested : (t : ℕ) → i.last_notified_at ≡ some t → t + 2 * minute < now

-- No file is waiting, or the owner was told within two minutes.
abbrev pub IsLeft : ℕ → Invite → Type 0
IsLeft now i =
    (i.pending_notify_count ≡ 0)
    ⊎ ((t : ℕ) × (i.last_notified_at ≡ some t) × (now ≤ t + 2 * minute))

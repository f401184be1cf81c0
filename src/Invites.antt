-- ===== src/Invites.antt =====
-- Upload invites, by which a guest puts files into the folder of an owner: internal/model/upload_invite.go
-- and the state of internal/service/upload_invite_service.go. Statements are in Repository, the use of the vault in Folders, the
-- methods for the owner and the scheduler in Owner, those for the guest in Guest.
pub mod Repository
pub mod Folders
pub mod Owner
pub mod Guest
pub mod Capacity
pub mod Calls
pub mod Bounded
pub mod Retry
pub mod Notify
pub mod Admission
mod Tests
use bytevault.Prelude.{ℕ, ◌*◌, Bool, Option, List}
use bytevault.Prelude.Text.{Text}
use bytevault.Prelude.Action.{Action}
use bytevault.Vault

pub data InviteStatus : Type 0 where
  active revoked expired : InviteStatus

pub record Invite : Type 0 where
  pub id : ℕ
  pub token : ℕ
  pub owner_id : ℕ
  pub target_folder_id : Option ℕ
  pub label : Text
  pub max_total_bytes : ℕ
  pub max_files : ℕ
  pub used_bytes : ℕ
  pub used_files : ℕ
  pub passcode_hash : Option ℕ
  pub status : InviteStatus
  pub pending_notify_count : ℕ
  pub last_notified_at : Option ℕ
  pub expires_at : ℕ

pub record InviteFile : Type 0 where
  pub invite_id : ℕ
  pub file_id : ℕ
  pub ip_address : Option ℕ
  pub created_at : ℕ

-- A session of a guest in Redis: its invite and when it lapses; a counter of attempts likewise. Of a user it
-- says whether the address is verified. The vault has the tables of files and folders.
pub record Db : Type 0 where
  pub verified : ℕ → Option Bool
  pub invites : List Invite
  pub next_id : ℕ
  pub invite_files : List InviteFile
  pub vault : Vault.Db
  pub sessions : ℕ → Option (ℕ × ℕ)
  pub attempts : ℕ → ℕ → Option (ℕ × ℕ)

pub data Error : Type 0 where
  not_found unverified too_many_invites not_active wrong_passcode no_passcode no_session : Error
  wrong_session blocked_type rate_limited over_capacity already_final query_failed : Error
  vault_failed : Vault.Error → Error

abbrev pub Service : Type 0 → Type 0
Service A = Action Error Db A

-- What comes from outside: random tokens and the first eight characters of one, bcrypt, the regular
-- expression that cleans a label, and what comes from outside of the vault.
pub record Env : Type 0 where
  pub token : ℕ
  pub short_token : ℕ → Text
  pub hash_passcode : ℕ → Option ℕ
  pub check_passcode : ℕ → ℕ → Bool
  pub sanitize : Text → Text
  pub vault : Vault.Env

abbrev pub hour : ℕ
hour = 3_600_000_000_000

abbrev pub gib : ℕ
gib = 1024 * 1024 * 1024

-- ===== src/Ephemeral.antt =====
-- Ephemeral shares, files of guests that destroy themselves: internal/model/ephemeral_share.go and
-- the state of internal/service/ephemeral_service.go. The statements on the table are in Repository,
-- the methods of the service in Upload and Download, the scheduler's purge in Purge.
pub mod Repository
pub mod Upload
pub mod Download
pub mod Purge
pub mod Listing
pub mod Change
pub mod Quiet
pub mod Calls
pub mod Writes
pub mod Refines
pub mod RefinesDownload
pub mod RefinesPurge
pub mod Lifecycle
pub mod Gone
pub mod Bounds
pub mod Answers
pub mod Race
pub mod Purged
pub mod Targets
pub mod Completion
pub mod Limits
pub mod Preview
pub mod Progress
mod Samples
mod Tests
use Prim.Native.String.{String}
use bytevault.Prelude.{ℕ, ◌+◌, ◌*◌, ◌/◌, Bool, Option, none, some, List, [], ◌∷◌}
use bytevault.Prelude.Action.{Action}

-- The texts of the column `status`.
pub data Status : Type 0 where
  uploading active ready burned expired : Status

-- Sizes are positive, since the handlers refuse others; times are nanoseconds.
pub record Share : Type 0 where
  pub id : ℕ
  pub token : ℕ
  pub storage_key : ℕ
  pub upload_id : Option ℕ
  pub filename : ℕ
  pub file_size : ℕ
  pub content_type : String
  pub status : Status
  pub max_downloads : ℕ
  pub download_count : ℕ
  pub ip_address : Option ℕ
  pub user_agent : Option ℕ
  pub password_hash : Option ℕ
  pub expires_at : ℕ
  pub is_live : Bool
  pub created_at : ℕ
  pub burned_at : Option ℕ

-- `MaxFileSizeGb` is a float; it is kept in bytes, that is in units of 2^-30 GB.
pub record Settings : Type 0 where
  pub max_file_size : ℕ
  pub max_downloads : ℕ
  pub rate_limit : ℕ
  pub expiry_minutes : ℕ

pub record LiveProgress : Type 0 where
  pub progress_pct : ℕ
  pub uploaded_bytes : ℕ
  pub updated_at : ℕ

-- A presigned URL, by what it permits and for how long.
pub data Url : Type 0 where
  put_object : ℕ → ℕ → Url
  put_part : ℕ → ℕ → ℕ → ℕ → Url
  get_object : ℕ → ℕ → Url

-- The calls of the storage provider that change what it holds.
pub data StorageCall : Type 0 where
  delete : ℕ → StorageCall
  delete_after : ℕ → ℕ → StorageCall
  initiate_multipart : ℕ → StorageCall
  complete_multipart : ℕ → ℕ → StorageCall
  abort_multipart : ℕ → ℕ → StorageCall

-- The tables, the service's memory, and the calls made to the storage, last first.
pub record Db : Type 0 where
  pub settings : Option Settings
  pub shares : List Share
  pub next_id : ℕ
  pub progress : ℕ → Option LiveProgress
  pub calls : List StorageCall
  pub egress : List (ℕ × ℕ)

pub data Error : Type 0 where
  not_found query_failed storage_failed too_large rate_limited bad_part_count : Error
  bad_part_number not_uploading wrong_session oversize still_uploading bad_password : Error

abbrev pub Service : Type 0 → Type 0
Service A = Action Error Db A

-- What the methods take from outside: random tokens, bcrypt, the storage's answers, and the layout of
-- a storage key.
pub record Env : Type 0 where
  pub token : ℕ
  pub hash_password : ℕ → Option ℕ
  pub check_password : ℕ → ℕ → Bool
  pub object_size : ℕ → ℕ
  pub new_upload_id : ℕ
  pub key_of : ℕ → ℕ → ℕ

abbrev pub minute : ℕ
minute = 60_000_000_000

abbrev pub gib : ℕ
gib = 1024 * 1024 * 1024

abbrev pub default_settings : Settings
default_settings = record {
  max_file_size = 2 * gib;
  max_downloads = 1;
  rate_limit = 50;
  expiry_minutes = 60;
}

-- The hard limit on a stored object, 2 GB.
abbrev pub max_allowed_limit : ℕ
max_allowed_limit = 2 * gib

abbrev pub max_parts_allowed : ℕ
max_parts_allowed = 2000

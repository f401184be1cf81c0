-- ===== src/Vault.antt =====
-- Files and folders of users: internal/model/file.go, internal/model/folder.go and the state of
-- internal/service/file_service.go and folder_service.go. Statements on files are in FileRepository,
-- those on folders in FolderRepository; Uploads, Completion, Multipart, Access and Owner hold the
-- methods of the file service, Folders those of the folder service.
pub mod FileRepository
pub mod FolderRepository
pub mod Uploads
pub mod Completion
pub mod Multipart
pub mod Access
pub mod Owner
pub mod Folders
pub mod Ownership
pub mod Calls
pub mod Neutral
pub mod Rows
pub mod NewFiles
pub mod Visitors
pub mod Others
pub mod Public
pub mod Quota
pub mod Names
pub mod Aborts
pub mod Served
pub mod Removal
pub mod Sharing
mod Tests
use bytevault.Prelude.{ℕ, Bool, Option, List, ◌*◌}
use bytevault.Prelude.Text.{Text}
use bytevault.Prelude.Action.{Action}

pub data Status : Type 0 where
  uploading pending_scan ready active failed : Status
  blocked_malware blocked_nsfw flagged_review : Status

pub record File : Type 0 where
  pub id : ℕ
  pub user_id : ℕ
  pub filename : Text
  pub storage_key : ℕ
  pub thumbnail_key : Option ℕ
  pub file_size : ℕ
  pub content_type : Text
  pub is_public : Bool
  pub status : Status
  pub folder_id : Option ℕ
  pub created_at : ℕ
  pub deleted_at : Option ℕ
  pub downloads : ℕ
  pub tags : List Text
  pub content_hash : Option ℕ

pub record Folder : Type 0 where
  pub id : ℕ
  pub user_id : ℕ
  pub name : Text
  pub parent_id : Option ℕ
  pub is_public : Bool
  pub views : ℕ
  pub deleted_at : Option ℕ

-- A user's own limits, which an admin may set.
pub record UserLimits : Type 0 where
  pub storage_limit_bytes : Option ℕ
  pub max_file_size_bytes : Option ℕ

pub record PackageLimits : Type 0 where
  pub storage_limit_bytes : ℕ
  pub max_file_size_bytes : ℕ

-- The subscription that `FindByUserID` finds: whether its status is active, and its package.
pub record Plan : Type 0 where
  pub is_active : Bool
  pub limits : Option PackageLimits

-- What is asked of the object storage.
pub data StorageCall : Type 0 where
  put : ℕ → StorageCall
  delete : ℕ → StorageCall
  initiate : ℕ → ℕ → StorageCall
  complete : ℕ → ℕ → StorageCall
  abort : ℕ → ℕ → StorageCall

-- Bytes served: to whom (nobody for a public share), of which file, and when.
pub record Egress : Type 0 where
  pub user_id : Option ℕ
  pub file_id : ℕ
  pub bytes : ℕ
  pub at : ℕ

-- The rows of each table, the newest first. `egress_dedupe` is the map in memory of the last time
-- that a user, or nobody, was counted for a file.
pub record Db : Type 0 where
  pub files : List File
  pub next_file : ℕ
  pub folders : List Folder
  pub next_folder : ℕ
  pub limits_of : ℕ → Option UserLimits
  pub plan_of : ℕ → Option Plan
  pub calls : List StorageCall
  pub jobs : List ℕ
  pub egress_dedupe : Option ℕ → ℕ → Option ℕ
  pub egress : List Egress

pub data Error : Type 0 where
  query_failed storage_failed initiate_failed not_found unauthorized : Error
  too_large unsupported_type over_quota bad_header bad_content : Error
  not_available not_uploading empty_name inside_itself no_thumbnail : Error
  conflict : File → Error

abbrev pub Service : Type 0 → Type 0
Service A = Action Error Db A

-- What comes from outside: a fresh storage key (a UUID below the user's prefix), the URLs that the
-- storage signs, the first bytes of an object or of a request's body and the type that Go's
-- `http.DetectContentType` sees in them, and the end of a name that a UUID makes unique.
pub record Env : Type 0 where
  pub fresh_key : ℕ
  pub fresh_upload_id : ℕ
  pub fresh_suffix : Text
  pub upload_url : ℕ → ℕ
  pub part_url : ℕ → ℕ → ℕ → ℕ
  pub download_url : ℕ → Text → ℕ
  pub first_bytes : ℕ → Option Text
  pub detect : Text → Text

abbrev pub default_quota_bytes : ℕ
default_quota_bytes = 5 * 1024 * 1024 * 1024

abbrev pub max_file_size_limit : ℕ
max_file_size_limit = 2 * 1024 * 1024 * 1024

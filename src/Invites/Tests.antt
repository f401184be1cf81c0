-- ===== src/Invites/Tests.antt =====
-- Examples of invites, at which the theorems apply.
use bytevault.Prelude.{
  ℕ, ◌+◌, ◌≤◌, ◌⊎◌, true, false, none, some, List, [], ◌∷◌, All, ◌==◌, ◌≡◌, refl, arith, is_set,
  if◌then◌else◌,
}
use bytevault.Prelude.Text.{
  bytes, same, member, lower, ext, last_dot, has_byte, before_byte, trim_space, trim_left,
  trim_right,
}
use bytevault.Prelude.Table.{find?, update, select, count_where}
use bytevault.Prelude.Action.{World, Result, ok, err, ◌>>=◌}
use bytevault.Content.{validate_magic_bytes, is_supported, detect_heic_magic_bytes}
use bytevault.Vault
use bytevault.Vault.{File, uploading, query_failed}
use bytevault.Vault.FileRepository.{
  create as create_file_row, get_user_storage_used, total_size, find_by_filename_and_folder,
}
use bytevault.Vault.FolderRepository.{
  find_by_id as find_folder_row, create as create_folder_row, list_by_user_id,
}
use bytevault.Vault.Uploads.{
  plan_limits, limits_for, validate_file, clean_tags, presign_upload, starts_public, fresh_session,
  on_conflict, create_upload_session,
}
use bytevault.Invites.{active, Invite, Db, Error, vault_failed, Env}
use bytevault.Invites.Repository.{
  release, is_active, find_by_token, count_uploads_by_ip_in_window, reserve_usage, record_file,
}
use bytevault.Invites.Folders.{
  in_vault, ensure_received_folder, final_name, ensure_sub_folder, make_folder, find_folder,
  open_session,
}
use bytevault.Invites.Guest.{
  guest_complete_upload, guest_create_upload_session, require_open, validate_guest_session,
  validate_session, limit_uploads, target_folder, restore_folder, release_on_failure,
  fail_on_failure, is_blocked,
}
use bytevault.Invites.Admission.{HasSession, guest_create-HasSession}
use bytevault.Invites.Capacity.{Fits}
use bytevault.Invites.Calls.{Event, guest_create, guest_complete, cleanup, run}
use bytevault.Invites.Bounded.{run-Fits}
use bytevault.Invites.Retry.{
  IsComplete, status_write_fails, released, completed, guest_complete_upload-retry,
}

abbrev env : Env
env = record {
  token = 8;
  short_token = λ token. bytes "8";
  hash_passcode = λ p. some (p + 1);
  check_passcode = λ h p. h == (p + 1);
  sanitize = λ name. name;
  vault = record {
    fresh_key = 9;
    fresh_upload_id = 7;
    fresh_suffix = bytes "c0ffee";
    upload_url = λ k. k;
    part_url = λ k u n. n;
    download_url = λ k n. k;
    first_bytes = λ k. some (bytes "hello");
    detect = λ t. bytes "text/plain";
  };
}

abbrev invite : Invite
invite = record {
  id = 1;
  token = 8;
  owner_id = 3;
  target_folder_id = some 4;
  label = bytes "In";
  max_total_bytes = 1000;
  max_files = 2;
  used_bytes = 100;
  used_files = 1;
  passcode_hash = none;
  status = active;
  pending_notify_count = 0;
  last_notified_at = none;
  expires_at = 1000;
}

abbrev file : File
file = record {
  id = 6;
  user_id = 3;
  filename = bytes "a.txt";
  storage_key = 7;
  thumbnail_key = none;
  file_size = 100;
  content_type = bytes "text/plain";
  is_public = false;
  status = uploading;
  folder_id = some 4;
  created_at = 0;
  deleted_at = none;
  downloads = 0;
  tags = [];
  content_hash = none;
}

-- The folder of the invite was removed.
abbrev vault : Vault.Db
vault = record {
  files = file ∷ [];
  next_file = 7;
  folders = [];
  next_folder = 5;
  limits_of = λ u. some (record { storage_limit_bytes = none; max_file_size_bytes = none });
  plan_of = λ u. none;
  calls = [];
  jobs = [];
  egress_dedupe = λ u f. none;
  egress = [];
}

abbrev db : Db
db = record {
  verified = λ u. some true;
  invites = invite ∷ [];
  next_id = 2;
  invite_files = record { invite_id = 1; file_id = 6; ip_address = none; created_at = 0 } ∷ [];
  vault = vault;
  sessions = λ s. none;
  attempts = λ ip token. none;
}

abbrev history : List Event
history =
    record {
      env = env;
      now = 10;
      faults = [];
      call = guest_create 8 (bytes "b.txt") 300 (bytes "text/plain") 0 1;
    }
    ∷ record { env = env; now = 20; faults = false ∷ true ∷ []; call = guest_complete 8 6 }
    ∷ record { env = env; now = 30; faults = []; call = cleanup }
    ∷ []

invite-Fits : All Fits db.invites
invite-Fits = (record { bytes = omega arith; files = omega arith }, tt)

run-Fits_example : All Fits (run db history).invites
run-Fits_example = run-Fits db history invite-Fits

upload-IsComplete : IsComplete env 8 6 20 db invite file
unfolding find? validate_magic_bytes same member lower before_byte ext last_dot has_byte
    detect_heic_magic_bytes
upload-IsComplete = record {
  invite = refl;
  owning = refl;
  file = refl;
  uploading = refl;
  open_ = refl;
  not_revoked = refl;
  owner = refl;
  header = bytes "hello";
  stored = refl;
  content = refl;
}

guest_complete_upload-retry_example :
    let (first, w) =
      guest_complete_upload env 8 6 (record { now = 20; faults = status_write_fails; db = db }) in
    (first ≡ err (vault_failed query_failed))
    × (guest_complete_upload env 8 6 w ≡ (
      ok tt,
      record {
        now = 20;
        faults = [];
        db = completed 6 file 20 (release 100 invite) (released file invite db);
      },
    ))
guest_complete_upload-retry_example =
    guest_complete_upload-retry env 8 6 20 db invite file upload-IsComplete

abbrev notified : Db
notified = record db { invites = record invite { pending_notify_count = 3 } ∷ [] }

-- An invite with a passcode, and a session that was opened for it.
abbrev guarded : World Db
guarded = record {
  now = 10;
  faults = [];
  db = record db {
    invites = record invite { passcode_hash = some 2 } ∷ [];
    sessions = λ s. if s == 77 then some (1, 900) else none;
  };
}

abbrev opened : Result Error (File × ℕ)
opened = (guest_create_upload_session env 8 (bytes "b.txt") 300 (bytes "text/plain") 77 1 guarded).0

-- What comes of the guest's call: a file in a folder that is made again.
abbrev new_guest_file : File
new_guest_file = record file {
  id = 7;
  filename = bytes "b.txt";
  storage_key = 9;
  file_size = 300;
  folder_id = some 6;
  created_at = 10;
}

admitted : opened ≡ ok (new_guest_file, 9)
unfolding guest_create_upload_session find_by_token require_open validate_guest_session
    validate_session limit_uploads count_uploads_by_ip_in_window target_folder restore_folder
    reserve_usage release_on_failure record_file fail_on_failure find? update count_where is_blocked
    in_vault find_folder find_folder_row make_folder ensure_received_folder ensure_sub_folder
    list_by_user_id create_folder_row final_name open_session select create_upload_session
    validate_file plan_limits limits_for is_supported get_user_storage_used total_size fresh_session
    on_conflict presign_upload starts_public clean_tags create_file_row find_by_filename_and_folder
    member lower ext last_dot has_byte same before_byte trim_space trim_left trim_right ◌>>=◌
admitted = refl

guest_create-HasSession_example :
    (i : Invite) × (find? (λ j. j.token == 8) guarded.db.invites ≡ some i)
    × (is_active i.status ≡ true)
    × (10 ≤ i.expires_at)
    × ((is_set i.passcode_hash ≡ false) ⊎ HasSession i.id 77 10 guarded.db)
    × (is_blocked (bytes "b.txt") ≡ false)
guest_create-HasSession_example =
    guest_create-HasSession env 8 (bytes "b.txt") 300 (bytes "text/plain") 77 1 guarded
      (new_guest_file, 9) admitted

-- ===== src/Vault/Tests.antt =====
-- Runs of the methods on files and folders, and the theorems on concrete inputs.
use bytevault.Prelude.{
  ℕ, ◌+◌, Bool, true, false, Option, none, some, List, [], ◌∷◌, map, ◌≡◌, ◌⊎◌, refl, arith, ltb,
  if◌then◌else◌,
}
use bytevault.Prelude.Text.{
  bytes, same, member, lower, before_byte, without_ext, decimal, decimal_of, ext, last_dot,
  has_byte,
}
use bytevault.Prelude.Table.{find?, update, select}
use bytevault.Prelude.Table.Keys.{Distinct, by_key}
use bytevault.Prelude.Action.{ok, ◌>>=◌}
use bytevault.Content.{detect_heic_magic_bytes, validate_magic_bytes}
use bytevault.Vault.{Status, uploading, ready, failed, File, Folder, Db, Env}
use bytevault.Vault.FileRepository.{
  find_by_id, update_status, list_public_files_by_folder_id, increment_downloads, is_live_id,
  set_deleted, set_folder, purge_soft_deleted_before, create, find_by_filename_and_folder,
  update_file,
}
use bytevault.Vault.FolderRepository.{
  hierarchy, has_public, update_folder, update_parent, get_public_breadcrumbs,
}
use bytevault.Vault.FolderRepository.{
  find_by_id as find_folder, create as create_folder_row, find_by_id_public, list_public_subfolders,
  increment_views,
}
use bytevault.Vault.Uploads.{
  Upload, keep_both, with_suffix, resolve_non_conflicting_filename, try_candidates,
}
use bytevault.Vault.Completion.{find_own, storage_call, complete_upload}
use bytevault.Vault.Multipart.{abort_multipart_upload}
use bytevault.Vault.Access.{
  find_public, require_public, is_accessible_publicly, is_below_public, climb, presign,
  count_served, should_record_egress, record_egress, download_public,
}
use bytevault.Vault.Owner.{move_file, delete_file}
use bytevault.Vault.Folders.{
  find_mine, check_parent, move_folder, save_public_folder_to_vault, find_shared, create_folder,
  create_or_imported, import_files, Contents, get_public_folder_contents,
}
use bytevault.Vault.Ownership.{id_of, is_owned, uncounted}
use bytevault.Vault.Calls.{remove, fetch_public, Event, run}
use bytevault.Vault.Others.{run-others}
use bytevault.Vault.Public.{reliable, IsServed, is_below_public-hierarchy, download_public-IsServed}
use bytevault.Vault.Quota.{usage, IsAcceptable, complete-uncounted}
use bytevault.Vault.Names.{IsFree, AllTaken, resolve-IsFree}
use bytevault.Vault.Served.{Spaced, counted, counted-Spaced}
use bytevault.Vault.Removal.{delete-purge}
use bytevault.Vault.Sharing.{IsOpen, move-listed}

abbrev file : ℕ → ℕ → Status → Option ℕ → File
file id user status folder = record {
  id = id;
  user_id = user;
  filename = bytes "a.txt";
  storage_key = 100 + id;
  thumbnail_key = none;
  file_size = 10;
  content_type = bytes "text/plain";
  is_public = false;
  status = status;
  folder_id = folder;
  created_at = 0;
  deleted_at = none;
  downloads = 0;
  tags = [];
  content_hash = none;
}

abbrev folder : ℕ → Option ℕ → Bool → Folder
folder id parent is_public = record {
  id = id;
  user_id = 1;
  name = bytes "f";
  parent_id = parent;
  is_public = is_public;
  views = 0;
  deleted_at = none;
}

abbrev sample : Db
sample = record {
  files = file 2 2 uploading none ∷ file 1 1 ready (some 2) ∷ file 3 2 ready none ∷ [];
  next_file = 4;
  folders = folder 2 (some 1) false ∷ folder 1 none true ∷ [];
  next_folder = 3;
  limits_of = λ u. some (record { storage_limit_bytes = none; max_file_size_bytes = none });
  plan_of = λ u. none;
  calls = [];
  jobs = [];
  egress_dedupe = λ u f. none;
  egress = [];
}

abbrev env0 : Env
env0 = record {
  fresh_key = 9;
  fresh_upload_id = 7;
  fresh_suffix = bytes "c0ffee";
  upload_url = λ k. k;
  part_url = λ k u n. n;
  download_url = λ k n. k;
  first_bytes = λ k. some (bytes "hello");
  detect = λ t. bytes "text/plain";
}

distinct : Distinct id_of sample.files
distinct = (
  ((λ e. omega (arith, e)), ((λ e. omega (arith, e)), tt)),
  (((λ e. omega (arith, e)), tt), (tt, tt)),
)

abbrev event : ℕ → Event
event id = record { caller = 2; now = 5; env = env0; faults = false ∷ true ∷ []; call = remove id }

abbrev visit : Event
visit = record { caller = 2; now = 6; env = env0; faults = []; call = fetch_public 1 false }

run-others_example :
    map uncounted (select (is_owned 1) (run (event 1 ∷ event 3 ∷ visit ∷ []) sample).files)
    ≡ map uncounted (select (is_owned 1) sample.files)
run-others_example =
    run-others 1 (event 1 ∷ event 3 ∷ visit ∷ []) sample distinct
      (omega arith, (omega arith, (omega arith, tt)))
      ((λ e. omega (arith, e)), ((λ e. omega (arith, e)), ((λ e. omega (arith, e)), tt)))

is_below_public-hierarchy_example :
    is_below_public 5 2 (reliable 0 sample)
    ≡ (ok (has_public (hierarchy 5 sample.folders (some 2))), reliable 0 sample)
is_below_public-hierarchy_example = is_below_public-hierarchy 5 2 0 sample

below : has_public (hierarchy 5 sample.folders (some 2)) ≡ true
unfolding has_public hierarchy find?
below = refl

counted-Spaced_example : Spaced (
    counted
      (record { user_id = none; file_id = 1; bytes = 10; at = 5 }
        ∷ record { user_id = none; file_id = 1; bytes = 10; at = 6 }
        ∷ [])
      sample)
counted-Spaced_example = counted-Spaced _ sample

delete-purge_example :
    let d' = (delete_file 3 2 (reliable 10 sample)).1.db in
    (find? (is_live_id 3) d'.files ≡ none)
    × (find? (by_key id_of 3) (purge_soft_deleted_before 8 (reliable 20 d')).1.db.files
        ≡ (if ltb 10 8 then none else some (set_deleted 10 (file 3 2 ready none))))
unfolding find?
delete-purge_example = delete-purge 3 2 10 20 8 sample (file 3 2 ready none) distinct refl refl

served : (download_public env0 1 false (reliable 0 sample)).0 ≡ ok (101, file 1 1 ready (some 2))
unfolding download_public find_public require_public is_accessible_publicly is_below_public climb
    presign count_served find_by_id find_folder find? should_record_egress record_egress
    increment_downloads update_file ◌>>=◌
served = refl

download_public-IsServed_example : IsServed env0 1 sample (101, file 1 1 ready (some 2))
download_public-IsServed_example =
    download_public-IsServed env0 1 false (reliable 0 sample) (101, file 1 1 ready (some 2)) served

acceptable : IsAcceptable env0 2 2 sample (file 2 2 uploading none)
unfolding find? validate_magic_bytes same member lower before_byte ext last_dot has_byte
    detect_heic_magic_bytes
acceptable = record { header = bytes "hello"; there = refl; own = refl; bytes = refl; valid = refl }

complete-uncounted_example :
    usage 2 (complete_upload env0 2 2 none (reliable 0 sample)).1.db + 10 ≡ usage 2 sample
complete-uncounted_example =
    complete-uncounted env0 2 2 0 sample (file 2 2 uploading none) acceptable refl distinct

abbrev second_file : Upload
second_file = record {
  filename = bytes "a.txt";
  size = 10;
  content_type = bytes "text/plain";
  folder_id = none;
  tags = bytes " Work " ∷ [];
  conflict_action = keep_both;
  content_hash = none;
}

resolved :
    (resolve_non_conflicting_filename env0 2 (bytes "a.txt") none (reliable 0 sample)).0
    ≡ ok (bytes "a (1).txt")
unfolding resolve_non_conflicting_filename try_candidates find_by_filename_and_folder find? same
    with_suffix without_ext ext last_dot has_byte decimal decimal_of ◌>>=◌
resolved = refl

resolve-IsFree_example :
    IsFree env0 2 (bytes "a.txt") none sample (bytes "a (1).txt")
    ⊎ ((bytes "a (1).txt" ≡ with_suffix (bytes "a.txt") env0.fresh_suffix)
        × AllTaken env0 2 (bytes "a.txt") none sample 100 1 (bytes "a.txt"))
resolve-IsFree_example =
    resolve-IsFree env0 2 (bytes "a.txt") none (reliable 0 sample) (bytes "a (1).txt") resolved

abbrev second_row : File
second_row = record (file 4 2 uploading none) {
  filename = bytes "a (1).txt";
  storage_key = 9;
  tags = bytes "work" ∷ [];
}

folder-IsOpen : IsOpen sample 1 (folder 1 none true)
unfolding find? has_public hierarchy
folder-IsOpen = refl

move-listed_example :
    (c : Contents) × ((get_public_folder_contents 1
        (reliable 6 (move_file 3 2 (some 1) (reliable 5 sample)).1.db)).0
      ≡ ok c)
    × (find? (by_key id_of 3) c.files ≡ some (set_folder (some 1) 5 (file 3 2 ready none)))
unfolding find?
move-listed_example =
    move-listed 3 2 1 5 6 sample (file 3 2 ready none) (folder 1 none true) distinct refl refl refl
      folder-IsOpen

-- Two folders, each inside the other.
in_a_circle :
    (move_folder 1 1 (some 2) (reliable 0 sample)).1.db.folders
    ≡ folder 2 (some 1) false ∷ folder 1 (some 2) true ∷ []
unfolding move_folder find_mine check_parent find_folder update_parent update_folder find? update
    ◌>>=◌
in_a_circle = refl

abbrev shared : Db
shared = record sample { files = file 1 1 ready (some 1) ∷ [] }

-- An imported file has the object of the one it was made from, whose purge asks for that object.
imported : Db
imported = (save_public_folder_to_vault 2 1 (reliable 0 shared)).1.db

abbrev live_keys : List File → List (ℕ × ℕ)
live_keys [] = []
live_keys (f ∷ fs) = (f.user_id, f.storage_key) ∷ live_keys fs

same_object : live_keys imported.files ≡ (2, 101) ∷ (1, 101) ∷ []
unfolding imported save_public_folder_to_vault get_public_folder_contents find_shared
    find_by_id_public list_public_subfolders list_public_files_by_folder_id get_public_breadcrumbs
    increment_views create_folder check_parent create_or_imported import_files create
    create_folder_row hierarchy has_public find? select update update_folder ◌>>=◌
same_object = refl

-- Aborting makes a READY file FAILED.
aborted :
    (abort_multipart_upload 3 2 7 (reliable 0 sample)).1.db.files
    ≡ file 2 2 uploading none ∷ file 1 1 ready (some 2) ∷ file 3 2 failed none ∷ []
unfolding abort_multipart_upload find_own find_by_id storage_call update_status update_file find?
    update ◌>>=◌
aborted = refl

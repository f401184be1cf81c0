-- ===== src/Vault/Others.antt =====
-- What a user does with files, whatever fails, leaves the files of every other user as they are but for
-- the numbers of their downloads.
use bytevault.Prelude.{ℕ, ◌<◌, Bool, Option, List, [], ◌∷◌, ◌≡◌, ◌≢◌, refl, All, map}
use bytevault.Prelude.Text.{Text}
use bytevault.Prelude.Table.{select}
use bytevault.Prelude.Table.Keys.{Distinct}
use bytevault.Prelude.Action.{◌>>=◌}
use bytevault.Prelude.Action.Keeps.{Keeps, ignore-Keeps, keeps_rules}
use bytevault.Vault.{File, Db, Env, Service}
use bytevault.Vault.Completion.{find_own, complete_upload}
use bytevault.Vault.Multipart.{
  complete_multipart_upload, abort_multipart_upload, refresh_multipart_part_urls,
}
use bytevault.Vault.Access.{download, get_file_details, get_thumbnail}
use bytevault.Vault.Owner.{find_mine, toggle_share_status, move_file, rename_file, delete_file}
use bytevault.Vault.Calls.{
  Call, check, open_session, open_parts, complete, complete_parts, abort_parts, refresh, send,
  fetch, details, thumbnail, share, move, rename_to, remove, fetch_public, metadata_public,
  thumbnail_public, Event, perform, step, run,
}
use bytevault.Vault.Ownership.{
  id_of, is_owned, uncounted, Kept, Apart, on_file, find_own-Finds, find_mine-Finds,
}
use bytevault.Vault.Neutral.{
  find_by_id-Keeps, check_conflicts-Keeps, refresh_parts-Keeps, presign-Keeps, with_thumbnail-Keeps,
  required_thumbnail-Keeps,
}
use bytevault.Vault.Rows.{
  row_rules, validate_stored-Keeps, save_hash-Keeps, count_served-Keeps, fail_unless-Keeps,
  share-Keeps, move-Keeps, delete-Keeps,
}
use bytevault.Vault.Visitors.{
  download_public-Keeps, metadata-Keeps, thumbnail-Keeps as thumbnail_public-Keeps,
}
use bytevault.Vault.NewFiles.{create_upload_session-Keeps, create_multipart-Keeps, upload-Keeps}

module _ (user : ℕ) (fs : List File) where
  module _ (caller : ℕ) (differs : caller ≢ user) where
    own-Keeps :
        {B : Type 0} (id : ℕ) (k : File → Service B)
        → ((f : File) → f.id ≡ id → Keeps (Apart user fs id) (k f))
        → Keeps (Kept user fs) (find_own id caller >>= k)
    own-Keeps id k rest = on_file user fs id _ k (find_own-Finds user fs id caller differs) rest

    mine-Keeps :
        {B : Type 0} (id : ℕ) (k : File → Service B)
        → ((f : File) → f.id ≡ id → Keeps (Apart user fs id) (k f))
        → Keeps (Kept user fs) (find_mine id caller >>= k)
    mine-Keeps id k rest = on_file user fs id _ k (find_mine-Finds user fs id caller differs) rest

    complete_upload-Keeps :
        (env : Env) (id : ℕ) (hash : Option ℕ)
        → Keeps (Kept user fs) (complete_upload env id caller hash)
    unfolding complete_upload
    complete_upload-Keeps env id hash =
        own-Keeps id _ λ f same. search (row_rules, validate_stored-Keeps, save_hash-Keeps) depth 14

    complete_multipart-Keeps :
        (env : Env) (id up : ℕ) (hash : Option ℕ) (metrics : Bool)
        → Keeps (Kept user fs) (complete_multipart_upload env id caller up hash metrics)
    unfolding complete_multipart_upload
    complete_multipart-Keeps env id up hash metrics = own-Keeps id _ λ f same.
        search (row_rules, validate_stored-Keeps, save_hash-Keeps, fail_unless-Keeps) depth 16

    abort-Keeps : (id up : ℕ) → Keeps (Kept user fs) (abort_multipart_upload id caller up)
    unfolding abort_multipart_upload
    abort-Keeps id up = own-Keeps id _ (λ f same. search row_rules depth 9)

    refresh-Keeps :
        (env : Env) (id up : ℕ) (numbers : List ℕ)
        → Keeps (Kept user fs) (refresh_multipart_part_urls env id caller up numbers)
    unfolding refresh_multipart_part_urls
    refresh-Keeps env id up numbers =
        own-Keeps id _ (λ f same. search (keeps_rules, refresh_parts-Keeps) depth 9)

    download-Keeps :
        (env : Env) (id : ℕ) (skip : Bool) → Keeps (Kept user fs) (download env id caller skip)
    unfolding download
    download-Keeps env id skip =
        own-Keeps id _ (λ f same. search (keeps_rules, presign-Keeps, count_served-Keeps) depth 12)

    details-Keeps : (env : Env) (id : ℕ) → Keeps (Kept user fs) (get_file_details env id caller)
    unfolding get_file_details
    details-Keeps env id = own-Keeps id _ (λ f same. with_thumbnail-Keeps env f)

    thumbnail-Keeps : (env : Env) (id : ℕ) → Keeps (Kept user fs) (get_thumbnail env id caller)
    unfolding get_thumbnail
    thumbnail-Keeps env id =
        search (keeps_rules, find_by_id-Keeps, required_thumbnail-Keeps) depth 14

    toggle-Keeps : (id : ℕ) (b : Bool) → Keeps (Kept user fs) (toggle_share_status id caller b)
    unfolding toggle_share_status
    toggle-Keeps id b = mine-Keeps id _ (λ f same. share-Keeps user fs id b)

    move_file-Keeps :
        (id : ℕ) (folder : Option ℕ) → Keeps (Kept user fs) (move_file id caller folder)
    unfolding move_file
    move_file-Keeps id folder = mine-Keeps id _ (λ f same. move-Keeps user fs id folder)

    rename_file-Keeps : (id : ℕ) (n : Text) → Keeps (Kept user fs) (rename_file id caller n)
    unfolding rename_file
    rename_file-Keeps id n = mine-Keeps id _ (λ f same. search row_rules depth 9)

    delete_file-Keeps : (id : ℕ) → Keeps (Kept user fs) (delete_file id caller)
    unfolding delete_file
    delete_file-Keeps id = own-Keeps id _ (λ f same. delete-Keeps user fs id)

    perform-Keeps : (env : Env) (c : Call) → Keeps (Kept user fs) (perform env caller c)
    unfolding perform
    perform-Keeps env (check folder names) = ignore-Keeps _ (check_conflicts-Keeps _ _ _)
    perform-Keeps env (open_session u) =
        ignore-Keeps _ (create_upload_session-Keeps user fs caller differs env u)
    perform-Keeps env (open_parts u n) =
        ignore-Keeps _ (create_multipart-Keeps user fs caller differs env u n)
    perform-Keeps env (complete id hash) = complete_upload-Keeps env id hash
    perform-Keeps env (complete_parts id up hash m) = complete_multipart-Keeps env id up hash m
    perform-Keeps env (abort_parts id up) = abort-Keeps id up
    perform-Keeps env (refresh id up ns) = ignore-Keeps _ (refresh-Keeps env id up ns)
    perform-Keeps env (send b) = ignore-Keeps _ (upload-Keeps user fs caller differs env b)
    perform-Keeps env (fetch id skip) = ignore-Keeps _ (download-Keeps env id skip)
    perform-Keeps env (details id) = ignore-Keeps _ (details-Keeps env id)
    perform-Keeps env (thumbnail id) = ignore-Keeps _ (thumbnail-Keeps env id)
    perform-Keeps env (share id b) = toggle-Keeps id b
    perform-Keeps env (move id folder) = move_file-Keeps id folder
    perform-Keeps env (rename_to id n) = rename_file-Keeps id n
    perform-Keeps env (remove id) = delete_file-Keeps id
    perform-Keeps env (fetch_public id skip) =
        ignore-Keeps _ (download_public-Keeps user fs env id skip)
    perform-Keeps env (metadata_public id) = ignore-Keeps _ (metadata-Keeps env id)
    perform-Keeps env (thumbnail_public id) = ignore-Keeps _ (thumbnail_public-Keeps env id)

run-Kept :
    (user : ℕ) (fs : List File) (es : List Event) (d : Db)
    → All (λ e. e.caller ≢ user) es
    → Kept user fs d
    → Kept user fs (run es d)
unfolding run step
run-Kept user fs [] d h k = k
run-Kept user fs (e ∷ es) d h k =
    run-Kept user fs es _ h.1 ((perform-Keeps user fs e.caller h.0 e.env e.call).at _ k)

-- Whatever others call in whatever order, the public methods included, and whatever fails in it, the
-- files of a user stay as they are but for the numbers of their downloads, if the ids of the files are
-- distinct and below the next one.
pub run-others :
    (user : ℕ) (es : List Event) (d : Db)
    → Distinct id_of d.files
    → All (λ f. f.id < d.next_file) d.files
    → All (λ e. e.caller ≢ user) es
    → map uncounted (select (is_owned user) (run es d).files)
      ≡ map uncounted (select (is_owned user) d.files)
run-others user es d distinct below h =
    (run-Kept user (map uncounted (select (is_owned user) d.files)) es d h
      (record { owned = refl; distinct = distinct; below = below })).owned

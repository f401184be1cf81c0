-- ===== src/Vault/Folders.antt =====
-- internal/service/folder_service.go.
use bytevault.Prelude.{
  ℕ, suc, Bool, true, false, not, Option, none, some, List, [], ◌∷◌, ◌++◌, ◌==◌, points_to,
}
use bytevault.Prelude.Text.{Text, bytes, is_empty}
use bytevault.Prelude.Action.{
  Result, ok, err, pure, raise, attempt, ignore, require, or_raise, ◌>>=◌, ◌>>◌,
}
use bytevault.Vault.{ready, File, Folder, Error, not_found, empty_name, inside_itself, Service}
use bytevault.Vault.FileRepository.{
  create as create_row, list_public_files_by_folder_id, update_public_status_by_folder_id,
}
use bytevault.Vault.FolderRepository.{
  create, find_by_id, find_by_id_public, get_public_breadcrumbs, Listed, listed, list_by_user_id,
  list_public_subfolders, list_all_flat, update_parent, rename, update_public_status,
  increment_views, soft_delete, find_by_name,
}

-- `folder == nil || folder.UserID != userID`
unfoldable pub find_mine : ℕ → ℕ → Service Folder
find_mine id user = do
  row ← find_by_id id
  f ← or_raise row not_found
  require (f.user_id == user) not_found
  pure f

-- A parent must exist and be the user's.
unfoldable pub check_parent : ℕ → Option ℕ → Service Unit
check_parent user none = pure tt
check_parent user (some parent) = do p ← find_mine parent user; pure tt

-- `CreateFolder`
unfoldable pub create_folder : ℕ → Text → Option ℕ → Service Folder
create_folder user name parent = do
  require (not (is_empty name)) empty_name
  check_parent user parent
  create (record {
    id = 0;
    user_id = user;
    name = name;
    parent_id = parent;
    is_public = false;
    views = 0;
    deleted_at = none;
  })

-- `MoveFolder`
unfoldable pub move_folder : ℕ → ℕ → Option ℕ → Service Unit
move_folder id user parent = do
  f ← find_mine id user
  require (not (points_to parent id)) inside_itself
  check_parent user parent
  update_parent id parent

-- `RenameFolder`
unfoldable pub rename_folder : ℕ → ℕ → Text → Service Unit
rename_folder id user name = do
  require (not (is_empty name)) empty_name
  f ← find_mine id user
  rename id name

-- `ToggleShareStatus`
unfoldable pub toggle_share_status : ℕ → ℕ → Bool → Service Unit
toggle_share_status id user is_public = do
  f ← find_mine id user
  update_public_status id is_public
  ignore (update_public_status_by_folder_id id is_public)

pub record Contents : Type 0 where
  pub folder : Folder
  pub subfolders : List Folder
  pub files : List File
  pub breadcrumbs : List Folder

-- A query that failed counts as no row.
unfoldable pub find_shared : ℕ → Service Folder
find_shared id = do
  found ← attempt (find_by_id_public id)
  elim found [ ok (some f) ↦ pure f | _ ↦ raise not_found ]

abbrev pub or_none : {A : Type 0} → Result Error (List A) → List A
or_none (ok xs) = xs
or_none (err e) = []

-- `GetPublicFolderContents`; the thumbnails are signed as in `GetFileDetails`.
unfoldable pub get_public_folder_contents : ℕ → Service Contents
get_public_folder_contents id = do
  folder ← find_shared id
  subfolders ← list_public_subfolders id
  files ← list_public_files_by_folder_id id
  crumbs ← attempt (get_public_breadcrumbs id)
  ignore (increment_views id)
  pure (record {
    folder = folder;
    subfolders = subfolders;
    files = files;
    breadcrumbs = or_none crumbs;
  })

abbrev pub imported_file : ℕ → ℕ → File → File
imported_file user folder f = record f {
  id = 0;
  user_id = user;
  folder_id = some folder;
  status = ready;
  is_public = false;
  created_at = 0;
  downloads = 0;
}

-- The loop over the files; those whose row cannot be made are not counted.
unfoldable pub import_files : ℕ → ℕ → List File → Service ℕ
import_files user folder [] = pure 0
import_files user folder (f ∷ fs) = do
  made ← attempt (create_row (imported_file user folder f))
  n ← import_files user folder fs
  pure (elim made [ ok g ↦ suc n | err e ↦ n ])

unfoldable pub create_or_imported : ℕ → Text → Result Error Folder → Service Folder
create_or_imported user name (ok f) = pure f
create_or_imported user name (err e) = create_folder user (name ++ bytes " (Imported)") none

-- `SavePublicFolderToVault`
unfoldable pub save_public_folder_to_vault : ℕ → ℕ → Service (Folder × ℕ)
save_public_folder_to_vault user id = do
  found ← attempt (get_public_folder_contents id)
  contents ← elim found [ ok c ↦ pure c | err e ↦ raise not_found ]
  made ← attempt (create_folder user contents.folder.name none)
  folder ← create_or_imported user contents.folder.name made
  n ← import_files user folder.id contents.files
  pure (folder, n)

-- `GetPublicFolderForZip`
unfoldable pub get_public_folder_for_zip : ℕ → Service (Folder × List File)
get_public_folder_for_zip id = do
  folder ← find_shared id
  files ← list_public_files_by_folder_id id
  pure (folder, files)

-- `DeleteFolder`
unfoldable pub delete_folder : ℕ → ℕ → Service Unit
delete_folder id user = do f ← find_mine id user; soft_delete id

-- `GetOrCreateFolder`
unfoldable pub get_or_create_folder : ℕ → Text → Option ℕ → Service Folder
get_or_create_folder user name parent = do
  existing ← find_by_name user name parent
  elim existing [ some f ↦ pure f | none ↦ create_folder user name parent ]

-- `ListFolders`: all of them without counts, or those of a parent.
unfoldable pub list_folders : ℕ → Option ℕ → Bool → Service (List Listed)
list_folders user parent true = do fs ← list_all_flat user; pure (listed [] fs)
list_folders user parent false = list_by_user_id user parent

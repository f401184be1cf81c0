-- ===== src/Vault/FolderRepository.antt =====
-- internal/repository/folder_repository.go.
use bytevault.Prelude.{
  ℕ, zero, suc, ◌+◌, Bool, false, not, ◌&&◌, ◌||◌, Option, none, some, List, [], ◌∷◌, ◌++◌, ◌==◌,
  is_some, points_to,
}
use bytevault.Prelude.Table.{find?, update, select, count_where}
use bytevault.Prelude.Text.{Text, same}
use bytevault.Prelude.Action.{query, ◌>>◌}
use bytevault.Vault.{File, Folder, Db, query_failed, Service}
use bytevault.Vault.FileRepository.{total_size, is_live, set_deleted}

abbrev pub is_kept : Folder → Bool
is_kept f = not (is_some f.deleted_at)

abbrev pub is_kept_id : ℕ → Folder → Bool
is_kept_id id f = f.id == id && is_kept f

-- The id is given by the table.
abbrev pub insert_folder : Folder → ℕ → Db → Folder × Db
insert_folder f now d =
    let row : Folder = record f { id = d.next_folder; views = 0 } in
    (row, record d { folders = row ∷ d.folders; next_folder = suc d.next_folder })

unfoldable pub create : Folder → Service Folder
create f = query query_failed (insert_folder f)

unfoldable pub find_by_id : ℕ → Service (Option Folder)
find_by_id id = query query_failed (λ now d. (find? (is_kept_id id) d.folders, d))

-- The recursive part of `FindByIDPublic` and of `GetPublicBreadcrumbs`: a folder and those above it,
-- at most so many.
unfoldable pub hierarchy : ℕ → List Folder → Option ℕ → List Folder
hierarchy zero rs id = []
hierarchy (suc n) rs none = []
hierarchy (suc n) rs (some id) = elim (find? (is_kept_id id) rs) [
  | none ↦ []
  | some f ↦ f ∷ hierarchy n rs f.parent_id
]

abbrev pub depth_limit : ℕ
depth_limit = 10

unfoldable pub has_public : List Folder → Bool
has_public [] = false
has_public (f ∷ fs) = f.is_public || has_public fs

unfoldable pub find_by_id_public : ℕ → Service (Option Folder)
find_by_id_public id = query query_failed λ now d. (
  find? (λ f. is_kept_id id f && has_public (hierarchy depth_limit d.folders (some id))) d.folders,
  d,
)

unfoldable pub backwards : List Folder → List Folder
backwards [] = []
backwards (f ∷ fs) = backwards fs ++ (f ∷ [])

unfoldable pub get_public_breadcrumbs : ℕ → Service (List Folder)
get_public_breadcrumbs id =
    query query_failed (λ now d. (backwards (hierarchy depth_limit d.folders (some id)), d))

-- A row of a listing, with the number and the size of the files in the folder.
pub record Listed : Type 0 where
  pub folder : Folder
  pub file_count : ℕ
  pub total_size : ℕ

abbrev pub files_in : ℕ → File → Bool
files_in id f = points_to f.folder_id id && is_live f

abbrev pub listed : List File → List Folder → List Listed
listed files [] = []
listed files (f ∷ fs) =
    record {
      folder = f;
      file_count = count_where (files_in f.id) files;
      total_size = total_size (select (files_in f.id) files);
    }
    ∷ listed files fs

abbrev pub is_child : Option ℕ → Folder → Bool
is_child none f = not (is_some f.parent_id)
is_child (some parent) f = points_to f.parent_id parent

-- Listings are here in the order of the table, not by name.
unfoldable pub list_by_user_id : ℕ → Option ℕ → Service (List Listed)
list_by_user_id user parent = query query_failed λ now d. (
  listed d.files (select (λ f. f.user_id == user && is_child parent f && is_kept f) d.folders),
  d,
)

unfoldable pub list_public_subfolders : ℕ → Service (List Folder)
list_public_subfolders parent =
    query query_failed
      (λ now d. (select (λ f. points_to f.parent_id parent && is_kept f) d.folders, d))

unfoldable pub list_all_flat : ℕ → Service (List Folder)
list_all_flat user =
    query query_failed (λ now d. (select (λ f. f.user_id == user && is_kept f) d.folders, d))

-- `UPDATE folders SET ... WHERE id = $1`
unfoldable pub update_folder : (Folder → Bool) → (ℕ → Folder → Folder) → Service Unit
update_folder p f =
    query query_failed (λ now d. (tt, record d { folders = update p (f now) d.folders }))

abbrev pub set_parent : Option ℕ → ℕ → Folder → Folder
set_parent parent now f = record f { parent_id = parent }

unfoldable pub update_parent : ℕ → Option ℕ → Service Unit
update_parent id parent = update_folder (λ f. f.id == id) (set_parent parent)

abbrev pub set_name : Text → ℕ → Folder → Folder
set_name name now f = record f { name = name }

unfoldable pub rename : ℕ → Text → Service Unit
rename id name = update_folder (λ f. f.id == id) (set_name name)

abbrev pub set_public : Bool → ℕ → Folder → Folder
set_public is_public now f = record f { is_public = is_public }

unfoldable pub update_public_status : ℕ → Bool → Service Unit
update_public_status id is_public = update_folder (is_kept_id id) (set_public is_public)

abbrev pub count_view : ℕ → Folder → Folder
count_view now f = record f { views = f.views + 1 }

unfoldable pub increment_views : ℕ → Service Unit
increment_views id = update_folder (λ f. f.id == id) count_view

abbrev pub set_removed : ℕ → Folder → Folder
set_removed now f = record f { deleted_at = some now }

-- Two statements: the folder, then the files in it.
unfoldable pub soft_delete : ℕ → Service Unit
soft_delete id = do
  update_folder (λ f. f.id == id) set_removed
  query query_failed λ now d.
      (tt, record d { files = update (λ f. points_to f.folder_id id) (set_deleted now) d.files })

unfoldable pub find_by_name : ℕ → Text → Option ℕ → Service (Option Folder)
find_by_name user name parent = query query_failed λ now d. (
  find? (λ f. f.user_id == user && same f.name name && is_child parent f && is_kept f) d.folders,
  d,
)

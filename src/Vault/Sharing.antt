-- ===== src/Vault/Sharing.antt =====
-- What a shared folder lists.
use bytevault.Prelude.{
  ℕ, Bool, true, ◌&&◌, ◌||◌, Option, some, List, [], ◌∷◌, ◌≡◌, refl, sym, ap, subst, arith, inl,
  inr, ◌==◌, ==_refl, Bool-cases, points_to,
}
use bytevault.Prelude.Table.{find?, update, select, found, find?-holds}
use bytevault.Prelude.Table.Keys.{Distinct, by_key, find?-by_key, find?-update_key}
use bytevault.Prelude.Action.{ok, ◌>>=◌}
use bytevault.Vault.{File, Folder, Db}
use bytevault.Vault.FileRepository.{
  is_live, is_live_id, is_ready, is_pending_scan, find_by_id, update_file, set_folder, move_row,
  list_public_files_by_folder_id,
}
use bytevault.Vault.FolderRepository.{
  is_kept, backwards, is_kept_id, hierarchy, has_public, depth_limit, find_by_id_public,
  get_public_breadcrumbs, list_public_subfolders, update_folder, increment_views,
}
use bytevault.Vault.Owner.{find_mine, move_file}
use bytevault.Vault.Folders.{Contents, find_shared, get_public_folder_contents}
use bytevault.Vault.Ownership.{id_of}
use bytevault.Vault.Public.{reliable}

-- A row that is found, and that a SELECT takes, is found in what it takes.
find?-select :
    (p q : File → Bool) (rs : List File) (r : File)
    → find? p rs ≡ some r
    → q r ≡ true
    → find? p (select q rs) ≡ some r
unfolding find? select
find?-select p q [] r e t = cc
find?-select p q (x ∷ rs) r e t = elim (Bool-cases (p x)) [
  | inl here ↦
      let same : x ≡ r = found _ _ _ _ here e in
      let taken : q x ≡ true = subst (λ y. q y ≡ true) (sym same) t in
      rw (taken, here) (ap some same)
  | inr away ↦ elim (Bool-cases (q x)) [
    | inl y ↦ rw (y, away) (find?-select p q rs r (rw away at e) t)
    | inr y ↦ rw y (find?-select p q rs r (rw away at e) t)
  ]
]

-- A folder that the public may open.
abbrev pub IsOpen : Db → ℕ → Folder → Type 0
IsOpen d folder g =
    find? (λ f. is_kept_id folder f && has_public (hierarchy depth_limit d.folders (some folder)))
      d.folders
    ≡ some g

abbrev pub moved : ℕ → ℕ → Option ℕ → Db → Db
moved now id folder d = record d {
  files = update (λ r. r.id == id) (set_folder folder now) d.files;
}

move-reliable :
    (id user now : ℕ) (folder : Option ℕ) (d : Db) (f : File)
    → find? (is_live_id id) d.files ≡ some f
    → (f.user_id == user) ≡ true
    → move_file id user folder (reliable now d) ≡ (ok tt, reliable now (moved now id folder d))
unfolding move_file find_mine find_by_id move_row update_file ◌>>=◌
move-reliable id user now folder d f there own = rw (there, own) refl

-- The rows that a shared folder lists.
abbrev is_listed : ℕ → File → Bool
is_listed folder f =
    points_to f.folder_id folder && (is_ready f.status || is_pending_scan f.status) && is_live f

contents-reliable :
    (folder now : ℕ) (d : Db) (g : Folder)
    → IsOpen d folder g
    → (c : Contents) × ((get_public_folder_contents folder (reliable now d)).0 ≡ ok c)
      × (c.files ≡ select (is_listed folder) d.files)
unfolding get_public_folder_contents find_shared find_by_id_public list_public_subfolders
    list_public_files_by_folder_id get_public_breadcrumbs increment_views update_folder ◌>>=◌
contents-reliable folder now d g e = (
  record {
    folder = g;
    subfolders = select (λ f. points_to f.parent_id folder && is_kept f) d.folders;
    files = select (is_listed folder) d.files;
    breadcrumbs = backwards (hierarchy depth_limit d.folders (some folder));
  },
  rw e refl,
  refl,
)

-- When nothing fails, a READY file that its owner moves into a folder that the public may open is listed
-- there for the public, whoever owns the folder.
pub move-listed :
    (id user folder now later : ℕ) (d : Db) (f : File) (g : Folder)
    → Distinct id_of d.files
    → find? (is_live_id id) d.files ≡ some f
    → (f.user_id == user) ≡ true
    → is_ready f.status ≡ true
    → IsOpen d folder g
    → (c : Contents) × ((get_public_folder_contents folder
          (reliable later (move_file id user (some folder) (reliable now d)).1.db)).0
        ≡ ok c)
      × (find? (by_key id_of id) c.files ≡ some (set_folder (some folder) now f))
move-listed id user folder now later d f g distinct there own ready opened =
    let (c, answered, listed) =
      contents-reliable folder later (moved now id (some folder) d) g opened in
    rw (move-reliable id user now (some folder) d f there own)
      (c, answered, rw listed (find?-select (by_key id_of id) (is_listed folder) _ _ row shown))
  where
    same : is_live_id id f ≡ true → f.id ≡ id
    same e = ground arith

    row :
        find? (by_key id_of id) (update (λ r. r.id == id) (set_folder (some folder) now) d.files)
        ≡ some (set_folder (some folder) now f)
    row =
        find?-update_key id_of id (set_folder (some folder) now) d.files f (λ r. refl)
          (subst (λ k. find? (by_key id_of k) d.files ≡ some f)
            (same (find?-holds (is_live_id id) d.files f there))
            (find?-by_key id_of (is_live_id id) d.files f distinct there))

    lives : is_live_id id f ≡ true → is_live f ≡ true
    lives e = ground arith

    shown : is_listed folder (set_folder (some folder) now f) ≡ true
    shown = rw (==_refl folder, ready, lives (find?-holds (is_live_id id) d.files f there)) refl

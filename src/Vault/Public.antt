-- ===== src/Vault/Public.antt =====
-- What the public may read: the walk up the folders, and who gets a download.
use bytevault.Prelude.{
  ℕ, zero, suc, Bool, true, false, none, some, List, [], ◌∷◌, ◌≡◌, refl, subst, ◌⊎◌, inl, inr,
  Bool-cases, Option-cases,
}
use bytevault.Prelude.Table.{find?}
use bytevault.Prelude.Action.{World, ok, pure, or_raise, ◌>>=◌, ◌>>◌}
use bytevault.Prelude.Action.Answers.{
  bind-ok, require-ok, require-last, read-then, attempt-then, or_raise-then, pure-then,
}
use bytevault.Vault.{File, Folder, Db, Env, query_failed, storage_failed, not_found}
use bytevault.Vault.FileRepository.{is_live_id, is_available, find_by_id}
use bytevault.Vault.FolderRepository.{is_kept_id, find_by_id as find_folder, hierarchy, has_public}
use bytevault.Vault.Access.{
  climb, is_below_public, levels, is_accessible_publicly, require_public, find_public, presign,
  count_served, download_public,
}

abbrev pub reliable : ℕ → Db → World Db
reliable now d = record { now = now; faults = []; db = d }

-- A folder that is reached from an id in fewer than so many steps to a parent.
pub data Above (rs : List Folder) : ℕ → ℕ → Folder → Type 0 where
  here : {n id : ℕ} {f : Folder} → find? (is_kept_id id) rs ≡ some f → Above rs (suc n) id f
  up :
      {n id parent : ℕ} {f g : Folder}
      → find? (is_kept_id id) rs ≡ some g
      → g.parent_id ≡ some parent
      → Above rs n parent f
      → Above rs (suc n) id f

pub record IsShared (d : Db) (folder : ℕ) : Type 0 where
  pub shared : Folder
  pub above : Above d.folders levels folder shared
  pub is_public : shared.is_public ≡ true

hierarchy-none :
    (n id : ℕ) (rs : List Folder)
    → find? (is_kept_id id) rs ≡ none
    → hierarchy (suc n) rs (some id) ≡ []
unfolding hierarchy
hierarchy-none n id rs e = rw (hierarchy, e) refl

hierarchy-some :
    (n id : ℕ) (rs : List Folder) (f : Folder)
    → find? (is_kept_id id) rs ≡ some f
    → hierarchy (suc n) rs (some id) ≡ f ∷ hierarchy n rs f.parent_id
unfolding hierarchy
hierarchy-some n id rs f e = rw (hierarchy, e) refl

hierarchy-root : (n : ℕ) (rs : List Folder) → hierarchy n rs none ≡ []
unfolding hierarchy
hierarchy-root zero rs = refl
hierarchy-root (suc n) rs = refl

-- When nothing fails, the walk up the folders answers what the recursive query of the folders'
-- repository finds in as many levels.
pub is_below_public-hierarchy :
    (n id now : ℕ) (d : Db)
    → is_below_public n id (reliable now d)
      ≡ (ok (has_public (hierarchy n d.folders (some id))), reliable now d)
unfolding is_below_public climb hierarchy has_public find_folder ◌>>=◌
is_below_public-hierarchy zero id now d = refl
is_below_public-hierarchy (suc n) id now d = elim (Option-cases (find? (is_kept_id id) d.folders)) [
  | inl e ↦ rw (hierarchy-none n id d.folders e, e) refl
  | inr (f, e) ↦ elim (Bool-cases f.is_public) [
    | inl t ↦ rw (hierarchy-some n id d.folders f e, e, t) refl
    | inr t ↦ elim (Option-cases f.parent_id) [
      | inl p ↦ rw (hierarchy-some n id d.folders f e, p, hierarchy-root n d.folders, e, t, p) refl
      | inr (parent, p) ↦
          rw (hierarchy-some n id d.folders f e, p, e, t, p)
            (is_below_public-hierarchy n parent now d)
    ]
  ]
]

below-Above :
    (n id : ℕ) (w : World Db)
    → (is_below_public n id w).0 ≡ ok true
    → (f : Folder) × Above w.db.folders n id f × (f.is_public ≡ true)
unfolding is_below_public climb find_folder ◌>>=◌
below-Above zero id w h = let z : ok false ≡ ok true = h in absurd cc
below-Above (suc n) id w h =
    attempt-then query_failed (λ now d. find? (is_kept_id id) d.folders) (climb (is_below_public n))
      w true h (λ v same now a. let z : ok false ≡ ok true = a in absurd cc)
      λ v same now a. elim (Option-cases (find? (is_kept_id id) w.db.folders)) [
        | inl e ↦ let z : ok false ≡ ok true = rw e at a in absurd cc
        | inr (f, e) ↦ elim (Bool-cases f.is_public) [
          | inl t ↦ (f, here e, t)
          | inr t ↦ elim (Option-cases f.parent_id) [
            | inl p ↦ let z : ok false ≡ ok true = rw (e, t, p) at a in absurd cc
            | inr (parent, p) ↦
                let (g, above, public) = below-Above n parent v (rw (e, t, p) at a) in
                (g, up e p (subst (λ x. Above x.folders n parent g) same above), public)
          ]
        ]
      ]

-- What a file shows that anybody may read.
pub record IsReadable (d : Db) (f : File) : Type 0 where
  pub available : is_available f.status ≡ true
  pub reached :
      (f.is_public ≡ true) ⊎ ((folder : ℕ) × (f.folder_id ≡ some folder) × IsShared d folder)

accessible-reached :
    (f : File) (w : World Db)
    → (is_accessible_publicly f w).0 ≡ ok true
    → (f.is_public ≡ true) ⊎ ((folder : ℕ) × (f.folder_id ≡ some folder) × IsShared w.db folder)
unfolding is_accessible_publicly ◌>>=◌
accessible-reached f w h = elim (Bool-cases f.is_public) [
  | inl t ↦ inl t
  | inr t ↦ elim (Option-cases f.folder_id) [
    | inl p ↦ let z : ok false ≡ ok true = rw (t, p) at h in absurd cc
    | inr (folder, p) ↦
        let (g, above, public) = below-Above levels folder w (rw (t, p) at h) in
        inr (folder, p, record { shared = g; above = above; is_public = public })
  ]
]

require_public-IsReadable :
    (f : File) (w : World Db) → (require_public f w).0 ≡ ok tt → IsReadable w.db f
unfolding require_public
require_public-IsReadable f w h = bind-ok (is_accessible_publicly f) _ w tt h λ b e r.
    require-ok b _ _ _ tt r λ t r'. record {
      available = require-last _ _ _ r';
      reached = accessible-reached f w (rw t at e);
    }

find_public-IsReadable :
    (id : ℕ) (w : World Db) (f : File)
    → (find_public id w).0 ≡ ok f
    → (find? (is_live_id id) w.db.files ≡ some f) × IsReadable w.db f
unfolding find_public find_by_id
find_public-IsReadable id w f h =
    read-then query_failed (λ now d. find? (is_live_id id) d.files)
      (λ row. or_raise row not_found >>= λ g. require_public g >> pure g) w f h
      λ v same now a. or_raise-then _ _ _ v f a λ g e r.
        bind-ok (require_public g) _ v f r λ x passed r'.
          let one : g ≡ f = pure-then g f _ r' in
          let readable : IsReadable v.db g = require_public-IsReadable g v passed in
          (
            subst (λ y. find? (is_live_id id) w.db.files ≡ some y) one e,
            subst (λ y. IsReadable w.db y) one (subst (λ d. IsReadable d g) same readable),
          )

pub record IsServed (env : Env) (id : ℕ) (d : Db) (r : ℕ × File) : Type 0 where
  pub stored : find? (is_live_id id) d.files ≡ some r.1
  pub readable : IsReadable d r.1
  pub url : r.0 ≡ env.download_url r.1.storage_key r.1.filename

-- A download that anybody is given, whatever fails on the way, is of a file that is there and not
-- removed, is READY or ACTIVE, and is public itself or lies below a public folder at most five levels
-- up; and the URL is signed for the object and the name of that file.
pub download_public-IsServed :
    (env : Env) (id : ℕ) (skip : Bool) (w : World Db) (r : ℕ × File)
    → (download_public env id skip w).0 ≡ ok r
    → IsServed env id w.db r
unfolding download_public presign
download_public-IsServed env id skip w r h = bind-ok (find_public id) _ w r h λ f found rest.
    read-then storage_failed (λ now d. env.download_url f.storage_key f.filename) _ _ r rest
      λ v same now a. bind-ok (count_served none f skip) _ v r a λ x counted last.
        let one : (env.download_url f.storage_key f.filename, f) ≡ r = pure-then _ r _ last in
        let (there, readable) = find_public-IsReadable id w f found in
        subst (IsServed env id w.db) one
          (record { stored = there; readable = readable; url = refl })

-- ===== src/Vault/Visitors.antt =====
-- What the public methods do to the files of a user.
use bytevault.Prelude.{ℕ, zero, suc, Bool, Option, none, some, List}
use bytevault.Prelude.Action.{Result, ok, err}
use bytevault.Prelude.Action.Keeps.{
  Keeps, pure-Keeps, bind-Keeps, attempt-Keeps, option-Keeps, if-Keeps, keeps_rules,
}
use bytevault.Vault.{File, Folder, Db, Env, Error, Service}
use bytevault.Vault.Access.{
  count_served, climb, is_below_public, levels, is_accessible_publicly, require_public, find_public,
  download_public, get_public_metadata, get_public_thumbnail_url,
}
use bytevault.Vault.Ownership.{Kept, Kept-Neutral, count-Keeps}
use bytevault.Vault.Neutral.{
  find_by_id-Keeps, find_folder-Keeps, presign-Keeps, with_thumbnail-Keeps,
  required_thumbnail-Keeps, should_record-Keeps, record_egress-Keeps,
}

module _ {P : Db → Type 0} where
  climb-Keeps :
      (rest : ℕ → Service Bool) (r : Result Error (Option Folder))
      → ((id : ℕ) → Keeps P (rest id))
      → Keeps P (climb rest r)
  unfolding climb
  climb-Keeps rest (err e) h = pure-Keeps _
  climb-Keeps rest (ok none) h = pure-Keeps _
  climb-Keeps rest (ok (some f)) h =
      if-Keeps _ _ _ (pure-Keeps _) (option-Keeps f.parent_id _ _ (pure-Keeps _) h)

  is_below_public-Keeps : (n id : ℕ) → Keeps P (is_below_public n id)
  unfolding is_below_public
  is_below_public-Keeps zero id = pure-Keeps _
  is_below_public-Keeps (suc n) id =
      bind-Keeps _ _ (attempt-Keeps _ (find_folder-Keeps id))
        (λ r. climb-Keeps _ r (is_below_public-Keeps n))

  is_accessible-Keeps : (f : File) → Keeps P (is_accessible_publicly f)
  unfolding is_accessible_publicly
  is_accessible-Keeps f =
      if-Keeps _ _ _ (pure-Keeps _)
        (option-Keeps f.folder_id _ _ (pure-Keeps _) (is_below_public-Keeps levels))

  require_public-Keeps : (f : File) → Keeps P (require_public f)
  unfolding require_public
  require_public-Keeps f = search (keeps_rules, is_accessible-Keeps) depth 9

  find_public-Keeps : (id : ℕ) → Keeps P (find_public id)
  unfolding find_public
  find_public-Keeps id = search (keeps_rules, find_by_id-Keeps, require_public-Keeps) depth 12

  pub metadata-Keeps : (env : Env) (id : ℕ) → Keeps P (get_public_metadata env id)
  unfolding get_public_metadata
  metadata-Keeps env id = search (keeps_rules, find_public-Keeps, with_thumbnail-Keeps)

  pub thumbnail-Keeps : (env : Env) (id : ℕ) → Keeps P (get_public_thumbnail_url env id)
  unfolding get_public_thumbnail_url
  thumbnail-Keeps env id =
      search (keeps_rules, find_by_id-Keeps, require_public-Keeps, required_thumbnail-Keeps) depth
        12

module _ (user : ℕ) (fs : List File) where
  count_served-Keeps :
      (u : Option ℕ) (f : File) (skip : Bool) → Keeps (Kept user fs) (count_served u f skip)
  unfolding count_served
  count_served-Keeps u f skip =
      search (keeps_rules, count-Keeps, should_record-Keeps, record_egress-Keeps, Kept-Neutral)
        depth 14

  pub download_public-Keeps :
      (env : Env) (id : ℕ) (skip : Bool) → Keeps (Kept user fs) (download_public env id skip)
  unfolding download_public
  download_public-Keeps env id skip =
      search (keeps_rules, find_public-Keeps, presign-Keeps, count_served-Keeps) depth 12

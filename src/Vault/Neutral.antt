-- ===== src/Vault/Neutral.antt =====
-- The steps of the methods that change no file.
use bytevault.Prelude.{ℕ, zero, suc, Option, none, some, List, [], ◌∷◌, refl, inl, inr, Bool-cases}
use bytevault.Prelude.Text.{Text, decimal}
use bytevault.Prelude.Action.{Result, ok, err}
use bytevault.Prelude.Action.Keeps.{
  Keeps, query-Keeps, read-Keeps, effect-Keeps, modify-Keeps, option-Keeps, bind-Keeps, pure-Keeps,
  ignore-Keeps, keeps_rules,
}
use bytevault.Vault.{File, Db, Env, Error, StorageCall}
use bytevault.Vault.FileRepository.{find_by_id, find_by_filename_and_folder, get_user_storage_used}
use bytevault.Vault.FolderRepository.{find_by_id as find_folder}
use bytevault.Vault.Uploads.{
  validate_file, check_conflicts, with_suffix, try_candidates, resolve_non_conflicting_filename,
  presign_upload, starts_public,
}
use bytevault.Vault.Completion.{storage_call, enqueue_job}
use bytevault.Vault.Multipart.{
  sign_part, sign_parts, initiate_upload, or_abort, begin_parts, refresh_parts,
}
use bytevault.Vault.Access.{
  is_due, should_record_egress, record_egress, presign, thumbnail_url, with_thumbnail,
  required_thumbnail,
}
use bytevault.Vault.Ownership.{Neutral}

module _ {P : Db → Type 0} where
  pub find_by_name-Keeps :
      (user : ℕ) (name : Text) (folder : Option ℕ)
      → Keeps P (find_by_filename_and_folder user name folder)
  unfolding find_by_filename_and_folder
  find_by_name-Keeps user name folder = read-Keeps _ _

  pub find_by_id-Keeps : (id : ℕ) → Keeps P (find_by_id id)
  unfolding find_by_id
  find_by_id-Keeps id = read-Keeps _ _

  used-Keeps : (user : ℕ) → Keeps P (get_user_storage_used user)
  unfolding get_user_storage_used
  used-Keeps user = read-Keeps _ _

  pub find_folder-Keeps : (id : ℕ) → Keeps P (find_folder id)
  unfolding find_folder
  find_folder-Keeps id = read-Keeps _ _

  pub validate_file-Keeps :
      (user : ℕ) (name : Text) (size : ℕ) (content_type : Text)
      → Keeps P (validate_file user name size content_type)
  unfolding validate_file
  validate_file-Keeps user name size content_type = search (keeps_rules, used-Keeps) depth 14

  pub check_conflicts-Keeps :
      (user : ℕ) (folder : Option ℕ) (names : List Text)
      → Keeps P (check_conflicts user folder names)
  unfolding check_conflicts
  check_conflicts-Keeps user folder [] = pure-Keeps _
  check_conflicts-Keeps user folder (name ∷ names) =
      bind-Keeps _ _ (find_by_name-Keeps user name folder)
        λ o. bind-Keeps _ _ (check_conflicts-Keeps user folder names) (λ rest. pure-Keeps _)

  try_candidates-Keeps :
      (env : Env) (user : ℕ) (name : Text) (folder : Option ℕ) (rounds counter : ℕ)
      (candidate : Text)
      → Keeps P (try_candidates env user name folder rounds counter candidate)
  unfolding try_candidates
  try_candidates-Keeps env user name folder zero counter candidate = pure-Keeps _
  try_candidates-Keeps env user name folder (suc rounds) counter candidate =
      bind-Keeps _ _ (find_by_name-Keeps user candidate folder) λ o.
        option-Keeps o _ _ (pure-Keeps _) λ f.
          try_candidates-Keeps env user name folder rounds (suc counter)
            (with_suffix name (decimal counter))

  pub resolve-Keeps :
      (env : Env) (user : ℕ) (name : Text) (folder : Option ℕ)
      → Keeps P (resolve_non_conflicting_filename env user name folder)
  unfolding resolve_non_conflicting_filename
  resolve-Keeps env user name folder = try_candidates-Keeps env user name folder 100 1 name

  pub presign_upload-Keeps : (env : Env) (key : ℕ) → Keeps P (presign_upload env key)
  unfolding presign_upload
  presign_upload-Keeps env key = read-Keeps _ _

  pub starts_public-Keeps : (folder : Option ℕ) → Keeps P (starts_public folder)
  unfolding starts_public
  starts_public-Keeps none = pure-Keeps _
  starts_public-Keeps (some folder) = search (keeps_rules, find_folder-Keeps)

  sign_part-Keeps : (env : Env) (key up part : ℕ) → Keeps P (sign_part env key up part)
  unfolding sign_part
  sign_part-Keeps env key up part = read-Keeps _ _

  pub sign_parts-Keeps : (env : Env) (key up next n : ℕ) → Keeps P (sign_parts env key up next n)
  unfolding sign_parts
  sign_parts-Keeps env key up next zero = pure-Keeps _
  sign_parts-Keeps env key up next (suc n) =
      bind-Keeps _ _ (sign_part-Keeps env key up next)
        λ p. bind-Keeps _ _ (sign_parts-Keeps env key up (suc next) n) (λ ps. pure-Keeps _)

  pub refresh_parts-Keeps :
      (env : Env) (key up : ℕ) (ns : List ℕ) → Keeps P (refresh_parts env key up ns)
  unfolding refresh_parts
  refresh_parts-Keeps env key up [] = pure-Keeps _
  refresh_parts-Keeps env key up (n ∷ ns) =
      bind-Keeps _ _ (sign_part-Keeps env key up n)
        λ p. bind-Keeps _ _ (refresh_parts-Keeps env key up ns) (λ ps. pure-Keeps _)

  pub presign-Keeps : (env : Env) (f : File) → Keeps P (presign env f)
  unfolding presign
  presign-Keeps env f = read-Keeps _ _

  thumbnail_url-Keeps : (env : Env) (key : ℕ) → Keeps P (thumbnail_url env key)
  unfolding thumbnail_url
  thumbnail_url-Keeps env key = read-Keeps _ _

  pub with_thumbnail-Keeps : (env : Env) (f : File) → Keeps P (with_thumbnail env f)
  unfolding with_thumbnail
  with_thumbnail-Keeps env f =
      option-Keeps f.thumbnail_key _ _ (pure-Keeps _)
        λ key. search (keeps_rules, thumbnail_url-Keeps) depth 9

  pub required_thumbnail-Keeps : (env : Env) (f : File) → Keeps P (required_thumbnail env f)
  unfolding required_thumbnail
  required_thumbnail-Keeps env f = search (keeps_rules, thumbnail_url-Keeps) depth 9

module _ (P : Db → Type 0) (neutral : Neutral P) where
  pub storage_call-Keeps : (c : StorageCall) → Keeps P (storage_call c)
  unfolding storage_call
  storage_call-Keeps c = effect-Keeps _ _ (λ n d h. neutral.at d _ refl refl h)

  pub enqueue_job-Keeps : (id : ℕ) → Keeps P (enqueue_job id)
  unfolding enqueue_job
  enqueue_job-Keeps id = ignore-Keeps _ (query-Keeps _ _ (λ n d h. neutral.at d _ refl refl h))

  initiate-Keeps : (env : Env) → Keeps P (initiate_upload env)
  unfolding initiate_upload
  initiate-Keeps env = effect-Keeps _ _ (λ n d h. neutral.at d _ refl refl h)

  pub or_abort-Keeps : {A : Type 0} (env : Env) (r : Result Error A) → Keeps P (or_abort env r)
  unfolding or_abort
  or_abort-Keeps env (ok a) = pure-Keeps a
  or_abort-Keeps env (err e) = search (keeps_rules, storage_call-Keeps)

  pub begin_parts-Keeps : (env : Env) (n : ℕ) → Keeps P (begin_parts env n)
  unfolding begin_parts
  begin_parts-Keeps env n =
      search (keeps_rules, initiate-Keeps, sign_parts-Keeps, or_abort-Keeps) depth 9

  pub should_record-Keeps : (u : Option ℕ) (file : ℕ) → Keeps P (should_record_egress u file)
  unfolding should_record_egress
  should_record-Keeps u file = modify-Keeps _ (λ n d h.
      elim (Bool-cases (is_due n (d.egress_dedupe u file))) [
        | inl e ↦ rw e (neutral.at d _ refl refl h)
        | inr e ↦ rw e h
      ])

  pub record_egress-Keeps : (u : Option ℕ) (file size : ℕ) → Keeps P (record_egress u file size)
  unfolding record_egress
  record_egress-Keeps u file size = query-Keeps _ _ (λ n d h. neutral.at d _ refl refl h)

-- ===== src/Vault/Rows.antt =====
-- Steps on a file that is not the user's.
use bytevault.Prelude.{ℕ, zero, suc, Bool, Option, none, some, List, ◌≡◌, refl}
use bytevault.Prelude.Text.{Text}
use bytevault.Prelude.Action.{Result, ok, err}
use bytevault.Prelude.Action.Keeps.{
  Brings, Keeps, Finds, bind-Keeps, bind-Finds, then-Finds, pure-Keeps, raise-Keeps, ignore-Keeps,
  option-Keeps, if-Keeps, keeps_rules,
}
use bytevault.Vault.{Status, File, Env, Error}
use bytevault.Vault.FileRepository.{
  update_status, update_upload_metrics, update_content_hash, increment_downloads,
  update_public_status, move_row, rename_row, soft_delete, Replacement, update_file_for_replacement,
}
use bytevault.Vault.Completion.{reject, check_header, validate_stored, save_hash}
use bytevault.Vault.Multipart.{fail_unless}
use bytevault.Vault.Access.{count_served}
use bytevault.Vault.Ownership.{
  is_owned, Kept, Apart, Taken, update-Keeps, create-Keeps, on_file, find_own-Finds,
  find_mine-Finds, find_named-Finds, Neutral, Kept-Neutral, Apart-Neutral,
}
use bytevault.Vault.Neutral.{
  find_by_name-Keeps, find_by_id-Keeps, validate_file-Keeps, check_conflicts-Keeps, resolve-Keeps,
  presign_upload-Keeps, starts_public-Keeps, refresh_parts-Keeps, presign-Keeps,
  with_thumbnail-Keeps, required_thumbnail-Keeps, storage_call-Keeps, enqueue_job-Keeps,
  or_abort-Keeps, begin_parts-Keeps, should_record-Keeps, record_egress-Keeps,
}

module _ (user : ℕ) (fs : List File) where
  -- Statements on a file of somebody else.
  module _ (id : ℕ) where
    pub update_status-Keeps :
        (key : ℕ) (status : Status) → key ≡ id → Keeps (Apart user fs id) (update_status key status)
    unfolding update_status
    update_status-Keeps key status e = update-Keeps user fs id key _ e (λ n f. refl) (λ n f. refl)

    pub update_metrics-Keeps :
        (key : ℕ) → key ≡ id → Keeps (Apart user fs id) (update_upload_metrics key)
    unfolding update_upload_metrics
    update_metrics-Keeps key e = update-Keeps user fs id key _ e (λ n f. refl) (λ n f. refl)

    pub update_hash-Keeps :
        (key hash : ℕ) → key ≡ id → Keeps (Apart user fs id) (update_content_hash key hash)
    unfolding update_content_hash
    update_hash-Keeps key hash e = update-Keeps user fs id key _ e (λ n f. refl) (λ n f. refl)

    pub downloads-Keeps : (key : ℕ) → key ≡ id → Keeps (Apart user fs id) (increment_downloads key)
    unfolding increment_downloads
    downloads-Keeps key e = update-Keeps user fs id key _ e (λ n f. refl) (λ n f. refl)

    pub share-Keeps : (b : Bool) → Keeps (Apart user fs id) (update_public_status id b)
    unfolding update_public_status
    share-Keeps b = update-Keeps user fs id id _ refl (λ n f. refl) (λ n f. refl)

    pub move-Keeps : (folder : Option ℕ) → Keeps (Apart user fs id) (move_row id folder)
    unfolding move_row
    move-Keeps folder = update-Keeps user fs id id _ refl (λ n f. refl) (λ n f. refl)

    pub rename-Keeps : (name : Text) → Keeps (Apart user fs id) (rename_row id name)
    unfolding rename_row
    rename-Keeps name = update-Keeps user fs id id _ refl (λ n f. refl) (λ n f. refl)

    pub delete-Keeps : Keeps (Apart user fs id) (soft_delete id)
    unfolding soft_delete
    delete-Keeps = update-Keeps user fs id id _ refl (λ n f. refl) (λ n f. refl)

    pub replacement-Keeps :
        (r : Replacement) → Keeps (Apart user fs id) (update_file_for_replacement id r)
    unfolding update_file_for_replacement
    replacement-Keeps r = update-Keeps user fs id id _ refl (λ n f. refl) (λ n f. refl)

    pub ruleset row_rules = (
      keeps_rules, update_status-Keeps, update_metrics-Keeps, update_hash-Keeps, downloads-Keeps,
      share-Keeps, move-Keeps, rename-Keeps, delete-Keeps, replacement-Keeps, Apart-Neutral,
      storage_call-Keeps, enqueue_job-Keeps, should_record-Keeps, record_egress-Keeps,
      presign-Keeps,
    )

    pub reject-Keeps : (f : File) (e : Error) → f.id ≡ id → Keeps (Apart user fs id) (reject f e)
    unfolding reject
    reject-Keeps f e same = search row_rules depth 9

    pub check_header-Keeps :
        (env : Env) (f : File) (r : Result Error (Option Text))
        → f.id ≡ id
        → Keeps (Apart user fs id) (check_header env f r)
    unfolding check_header
    check_header-Keeps env f (err e) same = search row_rules depth 9
    check_header-Keeps env f (ok none) same = reject-Keeps f _ same
    check_header-Keeps env f (ok (some header)) same =
        if-Keeps _ _ _ (pure-Keeps _) (reject-Keeps f _ same)

    pub validate_stored-Keeps :
        (env : Env) (f : File) → f.id ≡ id → Keeps (Apart user fs id) (validate_stored env f)
    unfolding validate_stored
    validate_stored-Keeps env f same = search (keeps_rules, check_header-Keeps) depth 9

    pub save_hash-Keeps : (hash : Option ℕ) → Keeps (Apart user fs id) (save_hash id hash)
    unfolding save_hash
    save_hash-Keeps none = pure-Keeps _
    save_hash-Keeps (some zero) = pure-Keeps _
    save_hash-Keeps (some (suc hash)) = search row_rules depth 9

    pub count_served-Keeps :
        (u : Option ℕ) (f : File) (skip : Bool)
        → f.id ≡ id
        → Keeps (Apart user fs id) (count_served u f skip)
    unfolding count_served
    count_served-Keeps u f skip same = search row_rules depth 12

    pub fail_unless-Keeps :
        (r : Result Error (Unit {0})) → Keeps (Apart user fs id) (fail_unless id r)
    unfolding fail_unless
    fail_unless-Keeps (ok x) = pure-Keeps _
    fail_unless-Keeps (err e) = search row_rules depth 9

-- ===== src/Vault/NewFiles.antt =====
-- The methods that make files: what they keep of the files of another user.
use bytevault.Prelude.{ℕ, Bool, Option, none, some, List, ◌≢◌}
use bytevault.Prelude.Text.{Text}
use bytevault.Prelude.Action.{Result, ok, err}
use bytevault.Prelude.Action.Keeps.{Brings, Keeps, bind-Keeps, bind-Finds, raise-Keeps, keeps_rules}
use bytevault.Vault.{File, Env, Error, Service}
use bytevault.Vault.FileRepository.{create}
use bytevault.Vault.Uploads.{
  Upload, ConflictAction, replace, keep_both, other, replace_existing, new_file, fresh_session,
  on_conflict, create_upload_session,
}
use bytevault.Vault.Completion.{Body, keep_or_delete, upload}
use bytevault.Vault.Multipart.{
  replace_in_parts, fresh_in_parts, on_conflict_in_parts, create_multipart_upload_session,
}
use bytevault.Vault.Ownership.{Kept, Apart, Taken, create-Keeps, find_named-Finds, Kept-Neutral}
use bytevault.Vault.Neutral.{
  validate_file-Keeps, resolve-Keeps, presign_upload-Keeps, starts_public-Keeps, storage_call-Keeps,
  enqueue_job-Keeps, or_abort-Keeps, begin_parts-Keeps,
}
use bytevault.Vault.Rows.{row_rules}

module _ (user : ℕ) (fs : List File) where
  -- The end of a method whose file is somebody else's.
  done :
      {A : Type 0} (id : ℕ) (m : Service A)
      → Keeps (Apart user fs id) m
      → Brings (Apart user fs id) (Kept user fs) m
  done id m h = record { at = λ w p. (h.at w p).kept }

  -- A method that goes on as if it had not looked at that file.
  anew :
      {A : Type 0} (id : ℕ) (m : Service A)
      → Keeps (Kept user fs) m
      → Brings (Apart user fs id) (Kept user fs) m
  anew id m h = record { at = λ w p. h.at w p.kept }

  module _ (caller : ℕ) (differs : caller ≢ user) where
    new_file-Keeps :
        (env : Env) (u : Upload) (n : Text) (b : Bool) (tags : List Text)
        → Keeps (Kept user fs) (create (record (new_file env caller u n b) { tags = tags }))
    new_file-Keeps env u n b tags = create-Keeps user fs _ differs

    fresh_session-Keeps :
        (env : Env) (u : Upload) (n : Text) → Keeps (Kept user fs) (fresh_session env caller u n)
    unfolding fresh_session
    fresh_session-Keeps env u n =
        search (keeps_rules, presign_upload-Keeps, starts_public-Keeps, create-Keeps, differs) depth
          12

    replace_existing-Keeps :
        (env : Env) (u : Upload) (f : File) → Keeps (Apart user fs f.id) (replace_existing env u f)
    unfolding replace_existing
    replace_existing-Keeps env u f = search (row_rules, presign_upload-Keeps) depth 9

    on_conflict-Brings :
        (env : Env) (u : Upload) (a : ConflictAction) (f : File)
        → Brings (Apart user fs f.id) (Kept user fs) (on_conflict env caller u a f)
    unfolding on_conflict
    on_conflict-Brings env u replace f = done f.id _ (replace_existing-Keeps env u f)
    on_conflict-Brings env u keep_both f =
        anew f.id _ (search (keeps_rules, resolve-Keeps, fresh_session-Keeps) depth 9)
    on_conflict-Brings env u other f = anew f.id _ (raise-Keeps _)

    -- The two ways on after the search for a name.
    Taken-Brings :
        {A : Type 0} (o : Option File) (m : Service A) (k : File → Service A)
        → Keeps (Kept user fs) m
        → ((f : File) → Brings (Apart user fs f.id) (Kept user fs) (k f))
        → Brings (Taken user fs o) (Kept user fs) (elim o [ none ↦ m | some f ↦ k f ])
    Taken-Brings none m k hm hk = hm
    Taken-Brings (some f) m k hm hk = hk f

    pub create_upload_session-Keeps :
        (env : Env) (u : Upload) → Keeps (Kept user fs) (create_upload_session env caller u)
    unfolding create_upload_session
    create_upload_session-Keeps env u = bind-Keeps _ _ (validate_file-Keeps _ _ _ _) λ x.
        bind-Finds _ _ (find_named-Finds user fs caller _ _ differs) λ o.
          Taken-Brings o _ _ (fresh_session-Keeps env u u.filename)
            (on_conflict-Brings env u u.conflict_action)

    fresh_in_parts-Keeps :
        (env : Env) (u : Upload) (n : Text) (parts : ℕ)
        → Keeps (Kept user fs) (fresh_in_parts env caller u n parts)
    unfolding fresh_in_parts
    fresh_in_parts-Keeps env u n parts =
        search
          (
            keeps_rules, begin_parts-Keeps, Kept-Neutral, starts_public-Keeps, new_file-Keeps,
            or_abort-Keeps,
          )
          depth 14

    replace_in_parts-Keeps :
        (env : Env) (u : Upload) (parts : ℕ) (f : File)
        → Keeps (Apart user fs f.id) (replace_in_parts env u parts f)
    unfolding replace_in_parts
    replace_in_parts-Keeps env u parts f =
        search (row_rules, begin_parts-Keeps, or_abort-Keeps) depth 14

    on_conflict_in_parts-Brings :
        (env : Env) (u : Upload) (parts : ℕ) (a : ConflictAction) (f : File)
        → Brings (Apart user fs f.id) (Kept user fs) (on_conflict_in_parts env caller u parts a f)
    unfolding on_conflict_in_parts
    on_conflict_in_parts-Brings env u parts replace f =
        done f.id _ (replace_in_parts-Keeps env u parts f)
    on_conflict_in_parts-Brings env u parts keep_both f =
        anew f.id _ (search (keeps_rules, resolve-Keeps, fresh_in_parts-Keeps) depth 9)
    on_conflict_in_parts-Brings env u parts other f = anew f.id _ (raise-Keeps _)

    pub create_multipart-Keeps :
        (env : Env) (u : Upload) (parts : ℕ)
        → Keeps (Kept user fs) (create_multipart_upload_session env caller u parts)
    unfolding create_multipart_upload_session
    create_multipart-Keeps env u parts = bind-Keeps _ _ (validate_file-Keeps _ _ _ _) λ x.
        bind-Finds _ _ (find_named-Finds user fs caller _ _ differs) λ o.
          Taken-Brings o _ _ (fresh_in_parts-Keeps env u u.filename parts)
            (on_conflict_in_parts-Brings env u parts u.conflict_action)

    keep_or_delete-Keeps :
        (env : Env) (r : Result Error File) → Keeps (Kept user fs) (keep_or_delete env r)
    unfolding keep_or_delete
    keep_or_delete-Keeps env (ok f) = search (keeps_rules, enqueue_job-Keeps, Kept-Neutral)
    keep_or_delete-Keeps env (err e) = search (keeps_rules, storage_call-Keeps, Kept-Neutral)

    pub upload-Keeps : (env : Env) (b : Body) → Keeps (Kept user fs) (upload env caller b)
    unfolding upload
    upload-Keeps env b =
        search
          (
            keeps_rules, validate_file-Keeps, storage_call-Keeps, Kept-Neutral, create-Keeps,
            differs, keep_or_delete-Keeps,
          )
          depth 14

-- ===== src/Vault/Quota.antt =====
-- The storage quota: what an accepted upload fits in, and which files count.
use bytevault.Prelude.{
  ℕ, ◌+◌, ◌≤◌, ◌≢◌, All, Bool, true, false, Option, none, some, List, [], ◌∷◌, ◌≡◌, refl, ◌∙◌, ap,
  subst, arith, ◌⊎◌, inl, inr, leb, ◌==◌, ==_iff, Bool-cases,
}
use bytevault.Prelude.Text.{Text}
use bytevault.Prelude.Table.{find?, update, select, found, find?-holds}
use bytevault.Prelude.Table.Keys.{Distinct, by_key, update-absent, find?-by_key}
use bytevault.Prelude.Action.{World, Result, ok, err, require, ◌>>=◌, ◌>>◌}
use bytevault.Prelude.Action.Answers.{
  bind-ok, require-ok, require-last, read-then, attempt-then, or_raise-then,
}
use bytevault.Content.{is_supported, validate_magic_bytes}
use bytevault.Vault.{
  pending_scan, File, UserLimits, Plan, Db, Env, Error, query_failed, too_large, unsupported_type,
  over_quota,
}
use bytevault.Vault.FileRepository.{
  is_live_id, is_counted, total_size, get_user_storage_used, find_by_id, set_status, update_file,
  update_status, update_upload_metrics,
}
use bytevault.Vault.Uploads.{Upload, limits_for, validate_file}
use bytevault.Vault.Completion.{
  Body, detected_type, find_own, check_header, validate_stored, save_hash, enqueue_job,
  complete_upload, upload,
}
use bytevault.Vault.Multipart.{Session, create_multipart_upload_session}
use bytevault.Vault.Ownership.{id_of}
use bytevault.Vault.Public.{reliable}

-- The bytes that count for a user.
abbrev pub usage : ℕ → Db → ℕ
usage user d = total_size (select (is_counted user) d.files)

-- An upload that fits: `plan` is what was read of the plan, or that it could not be read.
pub record Fits (d : Db) (user : ℕ) (name : Text) (size : ℕ) (content_type : Text) : Type 0 where
  pub own : UserLimits
  pub plan : Result Error (Option Plan)
  pub known : d.limits_of user ≡ some own
  pub read : (plan ≡ ok (d.plan_of user)) ⊎ (plan ≡ err query_failed)
  pub one : size ≤ (limits_for own plan).1
  pub all : usage user d + size ≤ (limits_for own plan).0
  pub supported : is_supported name content_type ≡ true

below : (a b : ℕ) → leb a b ≡ true → a ≤ b
below a b h = ground arith

validate-Fits :
    (user : ℕ) (name : Text) (size : ℕ) (content_type : Text) (w : World Db)
    → (validate_file user name size content_type w).0 ≡ ok tt
    → Fits w.db user name size content_type
unfolding validate_file get_user_storage_used
validate-Fits user name size content_type w h =
    read-then query_failed (λ now d. d.limits_of user) _ w tt h
      λ v same now a. or_raise-then _ _ _ v tt a λ own known b.
        attempt-then query_failed (λ now d. d.plan_of user) _ v tt b
          (λ v' same' now' c. ends v' (same' ∙ same) own known (err query_failed) (inr refl) c)
          (λ v' same' now' c.
            ends v' (same' ∙ same) own known (ok (v.db.plan_of user))
              (inl (ap (λ d. ok (d.plan_of user)) same)) c)
  where
    ends :
        (v : World Db)
        → v.db ≡ w.db
        → (own : UserLimits) → w.db.limits_of user ≡ some own
        → (plan : Result Error (Option Plan))
        → (plan ≡ ok (w.db.plan_of user)) ⊎ (plan ≡ err query_failed)
        → ((require (leb size (limits_for own plan).1) too_large
              >> (require (is_supported name content_type) unsupported_type
                  >> (get_user_storage_used user >>= λ used.
                      require (leb (used + size) (limits_for own plan).0) over_quota)))
            v).0
          ≡ ok tt
        → Fits w.db user name size content_type
    ends v same own known plan read h = require-ok _ _ _ v tt h λ small r.
        require-ok _ _ _ v tt r λ supported r'.
          read-then query_failed (λ now d. usage user d) _ v tt r'
            λ u same' now' c.
              let total = require-last _ _ u c in
              record {
                own = own;
                plan = plan;
                known = known;
                read = read;
                one = below _ _ small;
                all =
                    subst (λ d. usage user d + size ≤ (limits_for own plan).0) same
                      (below _ _ total);
                supported = supported;
              }

-- Likewise for uploads in parts.
pub create_multipart-Fits :
    (env : Env) (user : ℕ) (u : Upload) (n : ℕ) (w : World Db) (r : Session)
    → (create_multipart_upload_session env user u n w).0 ≡ ok r
    → Fits w.db user u.filename u.size u.content_type
unfolding create_multipart_upload_session
create_multipart-Fits env user u n w r h =
    bind-ok (validate_file user u.filename u.size u.content_type) _ w r h
      (λ x passed rest. validate-Fits user _ _ _ w passed)

-- Likewise for a file that comes with the request.
pub upload-Fits :
    (env : Env) (user : ℕ) (b : Body) (w : World Db) (f : File)
    → (upload env user b w).0 ≡ ok f
    → Fits w.db user b.filename b.size b.content_type
unfolding upload
upload-Fits env user b w f h =
    bind-ok (validate_file user b.filename b.size b.content_type) _ w f h
      (λ x passed rest. validate-Fits user _ _ _ w passed)

-- The row with a key leaves the sum.
total-update_key :
    (p : File → Bool) (g : File → File) (rs : List File) (s : File)
    → Distinct id_of rs
    → find? (by_key id_of s.id) rs ≡ some s
    → p s ≡ true
    → p (g s) ≡ false
    → total_size (select p (update (by_key id_of s.id) g rs)) + s.file_size
      ≡ total_size (select p rs)
unfolding find? update select total_size
total-update_key p g [] s d e yes_ no_ = cc
total-update_key p g (r ∷ rs) s d e yes_ no_ = elim (Bool-cases (r.id == s.id)) [
  | inl t ↦
      let same : r ≡ s = found _ _ _ _ t e in
      let rest : update (by_key id_of s.id) g rs ≡ rs =
        update-absent id_of s.id g rs
          (subst (λ j. All (λ q. q.id ≢ j) rs) ((==_iff _ _).0 t) d.0) in
      rw (t, same, yes_, no_, rest) (omega arith)
  | inr t ↦
      let ih = total-update_key p g rs s d.1 (rw t at e) yes_ no_ in
      elim (Bool-cases (p r)) [ inl c ↦ rw (t, c) (omega (arith, ih)) | inr c ↦ rw (t, c) ih ]
]

update-nothing : (p : File → Bool) (rs : List File) → update p (λ f. f) rs ≡ rs
unfolding update
update-nothing p [] = refl
update-nothing p (r ∷ rs) = elim (Bool-cases (p r)) [
  | inl e ↦ rw e (ap (◌∷◌ r) (update-nothing p rs))
  | inr e ↦ rw e (ap (◌∷◌ r) (update-nothing p rs))
]

-- A file whose bytes are accepted at the end of its upload.
pub record IsAcceptable (env : Env) (user id : ℕ) (d : Db) (f : File) : Type 0 where
  pub header : Text
  pub there : find? (is_live_id id) d.files ≡ some f
  pub own : (f.user_id == user) ≡ true
  pub bytes : env.first_bytes f.storage_key ≡ some header
  pub valid : validate_magic_bytes (detected_type env header) f.content_type f.filename ≡ true

abbrev pub completed : ℕ → ℕ → File → Db → Db
completed now id f d = record d {
  files = update (λ r. r.id == id) (set_status pending_scan now) d.files;
  jobs = f.id ∷ d.jobs;
}

pub complete-reliable :
    (env : Env) (user id now : ℕ) (d : Db) (f : File)
    → IsAcceptable env user id d f
    → complete_upload env id user none (reliable now d)
      ≡ (ok tt, reliable now (completed now id f d))
unfolding complete_upload find_own find_by_id validate_stored check_header save_hash
    update_upload_metrics update_status update_file enqueue_job ◌>>=◌
complete-reliable env user id now d f h =
    rw (h.there, h.own, h.bytes, h.valid, update-nothing (λ r. r.id == id) d.files) refl

-- When nothing fails, a file that counts and whose upload is completed without a hash waits for its scan,
-- and its bytes no longer count for the user.
pub complete-uncounted :
    (env : Env) (user id now : ℕ) (d : Db) (f : File)
    → IsAcceptable env user id d f
    → is_counted user f ≡ true
    → Distinct id_of d.files
    → usage user (complete_upload env id user none (reliable now d)).1.db + f.file_size
      ≡ usage user d
complete-uncounted env user id now d f h counted distinct =
    rw (complete-reliable env user id now d f h) (
      subst
        (λ k.
          total_size (
              select (is_counted user)
                (update (by_key id_of k) (set_status pending_scan now) d.files))
            + f.file_size
          ≡ usage user d)
        (same (find?-holds (is_live_id id) d.files f h.there))
        (total-update_key (is_counted user) (set_status pending_scan now) d.files f distinct
          (find?-by_key id_of _ d.files f distinct h.there) counted waiting))
  where
    same : is_live_id id f ≡ true → f.id ≡ id
    same e = ground arith

    waiting : is_counted user (set_status pending_scan now f) ≡ false
    waiting = ground arith

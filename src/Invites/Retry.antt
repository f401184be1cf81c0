-- ===== src/Invites/Retry.antt =====
-- Completing an upload again after it failed.
use bytevault.Prelude.{
  ℕ, Bool, true, false, not, ◌&&◌, ◌||◌, ap, ◌∙◌, some, List, [], ◌∷◌, ◌≡◌, refl, ltb, ◌==◌,
  Bool-cases, inl, inr, ==_refl,
}
use bytevault.Prelude.Table.{find?, update, find?-update_same}
use bytevault.Prelude.Action.{ok, err, ◌>>=◌}
use bytevault.Prelude.Text.{Text}
use bytevault.Content.{validate_magic_bytes}
use bytevault.Vault
use bytevault.Vault.{File, pending_scan, query_failed}
use bytevault.Vault.FileRepository.{
  is_uploading, is_live_id, find_by_id, set_status, update_file, update_status,
  update_upload_metrics,
}
use bytevault.Vault.Completion.{
  detected_type, find_own, check_header, validate_stored, save_hash, enqueue_job, complete_upload,
}
use bytevault.Invites.{Invite, InviteFile, Db, Env, vault_failed}
use bytevault.Invites.Repository.{
  is_active, invite_of, release, notify, find_by_token, find_by_file_id, release_usage,
  increment_pending_notify,
}
use bytevault.Invites.Folders.{in_vault, find_file, complete_file}
use bytevault.Invites.Guest.{is_revoked, drop_if_revoked, finish, guest_complete_upload}

-- An upload that can be completed.
pub record IsComplete (env : Env) (token id now : ℕ) (d : Db) (i : Invite) (f : File) : Type 0 where
  pub invite : find? (λ r. r.token == token) d.invites ≡ some i
  pub owning : find? (invite_of d.invite_files id) d.invites ≡ some i
  pub file : find? (is_live_id id) d.vault.files ≡ some f
  pub uploading : is_uploading f.status ≡ true
  pub open_ : (is_active i.status && not (ltb i.expires_at now)) ≡ true
  pub not_revoked : is_revoked i.status ≡ false
  pub owner : (f.user_id == i.owner_id) ≡ true
  pub header : Text
  pub stored : env.vault.first_bytes f.storage_key ≡ some header
  pub content :
      validate_magic_bytes (detected_type env.vault header) f.content_type f.filename ≡ true

-- Of the queries of a completion, the last but one, which writes the file's new status, fails.
abbrev pub status_write_fails : List Bool
status_write_fails = false ∷ false ∷ false ∷ false ∷ false ∷ false ∷ true ∷ []

abbrev pub released : File → Invite → Db → Db
released f i d = record d { invites = update (λ r. r.id == i.id) (release f.file_size) d.invites }

-- The file goes to the scan, and its job is queued.
abbrev pub scanned : ℕ → File → ℕ → Vault.Db → Vault.Db
scanned file f now v = record v {
  files = update (λ r. r.id == file) (set_status pending_scan now) v.files;
  jobs = f.id ∷ v.jobs;
}

abbrev pub completed : ℕ → File → ℕ → Invite → Db → Db
completed file f now i d = record d {
  invites = update (λ r. r.id == i.id) notify d.invites;
  vault = scanned file f now d.vault;
}

update_same : (p : File → Bool) (rs : List File) → update p (λ f. f) rs ≡ rs
unfolding update
update_same p [] = refl
update_same p (r ∷ rs) = elim (Bool-cases (p r)) [
  | inl e ↦ rw e (ap (◌∷◌ r) (update_same p rs))
  | inr e ↦ rw e (ap (◌∷◌ r) (update_same p rs))
]

module _ (env : Env) (token file now : ℕ) (d : Db) (i : Invite) (f : File)
    (c : IsComplete env token file now d i f) where
  upload_fails :
      complete_file env file i.owner_id
        (record { now = now; faults = false ∷ false ∷ false ∷ true ∷ []; db = d })
      ≡ (err (vault_failed query_failed), record { now = now; faults = []; db = d })
  unfolding complete_file in_vault complete_upload find_own find_by_id validate_stored check_header
      save_hash update_upload_metrics update_status update_file ◌>>=◌
  upload_fails =
      rw (c.file, c.owner, c.stored, c.content, update_same (λ r. r.id == file) d.vault.files) refl

  upload_succeeds :
      complete_file env file i.owner_id (record { now = now; faults = []; db = d }) ≡ (
        ok tt,
        record { now = now; faults = []; db = record d { vault = scanned file f now d.vault } },
      )
  unfolding complete_file in_vault complete_upload find_own find_by_id validate_stored check_header
      save_hash update_upload_metrics update_status update_file enqueue_job ◌>>=◌
  upload_succeeds =
      rw (c.file, c.owner, c.stored, c.content, update_same (λ r. r.id == file) d.vault.files) refl

  complete_fails :
      guest_complete_upload env token file
        (record { now = now; faults = status_write_fails; db = d })
      ≡ (err (vault_failed query_failed), record { now = now; faults = []; db = released f i d })
  unfolding guest_complete_upload find_by_token find_by_file_id find_file in_vault find_by_id
      drop_if_revoked finish release_usage ◌>>=◌
  complete_fails =
      rw (
        c.invite,
        c.owning,
        ==_refl i.id,
        c.file,
        c.uploading,
        c.not_revoked,
        c.open_,
        upload_fails,
      )

  complete_succeeds :
      guest_complete_upload env token file (record { now = now; faults = []; db = d })
      ≡ (ok tt, record { now = now; faults = []; db = completed file f now i d })
  unfolding guest_complete_upload find_by_token find_by_file_id find_file in_vault find_by_id
      drop_if_revoked finish increment_pending_notify ◌>>=◌
  complete_succeeds = rw (
    c.invite,
    c.owning,
    ==_refl i.id,
    c.file,
    c.uploading,
    c.not_revoked,
    c.open_,
    upload_succeeds,
  )

  -- The upload can still be completed.
  still-IsComplete : IsComplete env token file now (released f i d) (release f.file_size i) f
  still-IsComplete = record {
    invite = kept (λ r. r.token == token) (λ r. refl) c.invite;
    owning = kept (invite_of d.invite_files file) (λ r. same_invite d.invite_files r) c.owning;
    file = c.file;
    uploading = c.uploading;
    open_ = c.open_;
    not_revoked = c.not_revoked;
    owner = c.owner;
    header = c.header;
    stored = c.stored;
    content = c.content;
  }
    where
      same_invite :
          (rs : List InviteFile) (r : Invite)
          → invite_of rs file (release f.file_size r) ≡ invite_of rs file r
      same_invite [] r = refl
      same_invite (x ∷ rs) r =
          ap (λ b. x.file_id == file && x.invite_id == r.id || b) (same_invite rs r)

      kept :
          (p : Invite → Bool)
          → ((r : Invite) → p (release f.file_size r) ≡ p r)
          → find? p d.invites ≡ some i
          → find? p (released f i d).invites ≡ some (release f.file_size i)
      kept p same e =
          find?-update_same p (λ r. r.id == i.id) (release f.file_size) d.invites i same e
          ∙ rw (==_refl i.id)

-- An upload whose completion fails at the write of the file's new status, and is then tried again, is
-- completed, with the invite's capacity for it released: the first answer is an error, the second is
-- success, and after both the file goes to the scan while the invite counts it no more.
pub guest_complete_upload-retry :
    (env : Env) (token file now : ℕ) (d : Db) (i : Invite) (f : File)
    → IsComplete env token file now d i f
    → let (first, w) =
        guest_complete_upload env token file
          (record { now = now; faults = status_write_fails; db = d }) in
      (first ≡ err (vault_failed query_failed))
      × (guest_complete_upload env token file w ≡ (
        ok tt,
        record {
          now = now;
          faults = [];
          db = completed file f now (release f.file_size i) (released f i d);
        },
      ))
guest_complete_upload-retry env token file now d i f c =
    let failing = complete_fails env token file now d i f c in
    rw failing (
      refl,
      complete_succeeds env token file now (released f i d) (release f.file_size i) f
          (still-IsComplete env token file now d i f c),
    )

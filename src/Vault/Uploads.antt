-- ===== src/Vault/Uploads.antt =====
-- Uploads in internal/service/file_service.go: `validateFile`, `CheckConflicts`,
-- `ResolveNonConflictingFilename`, `CreateUploadSession`.
use bytevault.Prelude.{
  ℕ, zero, suc, ◌+◌, Bool, false, Option, none, some, List, [], ◌∷◌, ◌++◌, ltb, leb, if◌then◌else◌,
}
use bytevault.Prelude.Text.{Text, bytes, is_empty, lower, trim_space, ext, without_ext, decimal}
use bytevault.Prelude.Action.{
  Result, ok, pure, raise, query, attempt, require, or_raise, ◌>>=◌, ◌>>◌,
}
use bytevault.Content.{is_supported}
use bytevault.Vault.{
  uploading, File, Folder, UserLimits, Plan, Error, query_failed, storage_failed, not_found,
  too_large, unsupported_type, over_quota, conflict, Service, Env, default_quota_bytes,
  max_file_size_limit,
}
use bytevault.Vault.FileRepository.{
  create, get_user_storage_used, find_by_filename_and_folder, Replacement, replace_row,
  update_file_for_replacement,
}
use bytevault.Vault.FolderRepository.{find_by_id as find_folder}

-- The limits of the plan: of an active one with a package, else the default.
unfoldable pub plan_limits : Result Error (Option Plan) → ℕ × ℕ
plan_limits (ok (some p)) = elim p.limits [
  | none ↦ (default_quota_bytes, max_file_size_limit)
  | some l ↦
      if p.is_active
      then (l.storage_limit_bytes, l.max_file_size_bytes)
      else (default_quota_bytes, max_file_size_limit)
]
plan_limits _ = (default_quota_bytes, max_file_size_limit)

-- "Custom admin override if higher"
abbrev pub raise_to : ℕ → Option ℕ → ℕ
raise_to limit none = limit
raise_to limit (some own) = if ltb limit own then own else limit

-- The limits on the total and on one file.
unfoldable pub limits_for : UserLimits → Result Error (Option Plan) → ℕ × ℕ
limits_for u p =
    let (total, one) = plan_limits p in
    (raise_to total u.storage_limit_bytes, raise_to one u.max_file_size_bytes)

-- `validateFile`
unfoldable pub validate_file : ℕ → Text → ℕ → Text → Service Unit
validate_file user name size content_type = do
  row ← query query_failed (λ now d. (d.limits_of user, d))
  own ← or_raise row not_found
  plan ← attempt (query query_failed (λ now d. (d.plan_of user, d)))
  let limits = limits_for own plan
  require (leb size limits.1) too_large
  require (is_supported name content_type) unsupported_type
  used ← get_user_storage_used user
  require (leb (used + size) limits.0) over_quota

-- `CheckConflicts`: the names that are taken, with the files that have them.
unfoldable pub check_conflicts : ℕ → Option ℕ → List Text → Service (List (Text × File))
check_conflicts user folder [] = pure []
check_conflicts user folder (name ∷ names) = do
  existing ← find_by_filename_and_folder user name folder
  rest ← check_conflicts user folder names
  pure (elim existing [ none ↦ rest | some f ↦ (name, f) ∷ rest ])

-- "%s (%d)%s" and, with a part of a UUID, "%s (%s)%s".
unfoldable pub with_suffix : Text → Text → Text
with_suffix name suffix = without_ext name ++ bytes " (" ++ suffix ++ bytes ")" ++ ext name

-- The loop of `ResolveNonConflictingFilename` at a candidate; `rounds` are left until the counter,
-- which starts at 1, passes 100.
unfoldable pub try_candidates : Env → ℕ → Text → Option ℕ → ℕ → ℕ → Text → Service Text
try_candidates env user name folder zero counter candidate =
    pure (with_suffix name env.fresh_suffix)
try_candidates env user name folder (suc rounds) counter candidate = do
  existing ← find_by_filename_and_folder user candidate folder
  elim existing [
    | none ↦ pure candidate
    | some f ↦
        try_candidates env user name folder rounds (suc counter)
          (with_suffix name (decimal counter))
  ]

unfoldable pub resolve_non_conflicting_filename : Env → ℕ → Text → Option ℕ → Service Text
resolve_non_conflicting_filename env user name folder =
    try_candidates env user name folder 100 1 name

-- `strings.ToLower(conflictAction)` and its cases.
pub data ConflictAction : Type 0 where
  replace keep_both other : ConflictAction

pub record Upload : Type 0 where
  pub filename : Text
  pub size : ℕ
  pub content_type : Text
  pub folder_id : Option ℕ
  pub tags : List Text
  pub conflict_action : ConflictAction
  pub content_hash : Option ℕ

-- Trimmed, in lower case, without empty ones.
unfoldable pub clean_tags : List Text → List Text
clean_tags [] = []
clean_tags (t ∷ ts) =
    let rest = clean_tags ts in
    let clean = trim_space (lower t) in if is_empty clean then rest else clean ∷ rest

abbrev pub replacement : Upload → List Text → ℕ → Replacement
replacement u tags key = record {
  size = u.size;
  content_type = u.content_type;
  storage_key = key;
  tags = tags;
  content_hash = u.content_hash;
}

unfoldable pub presign_upload : Env → ℕ → Service ℕ
presign_upload env key = query storage_failed (λ now d. (env.upload_url key, d))

-- The case "replace": the file, as it is returned, and its URL.
unfoldable pub replace_existing : Env → Upload → File → Service (File × ℕ)
replace_existing env u existing = do
  url ← presign_upload env env.fresh_key
  let r = replacement u (clean_tags u.tags) env.fresh_key
  update_file_for_replacement existing.id r
  pure (replace_row r 0 existing, url)

abbrev pub is_public_folder : Result Error (Option Folder) → Bool
is_public_folder (ok (some f)) = f.is_public
is_public_folder _ = false

-- A new file is public if its folder is; a failed query counts as no.
unfoldable pub starts_public : Option ℕ → Service Bool
starts_public none = pure false
starts_public (some folder) = do f ← attempt (find_folder folder); pure (is_public_folder f)

abbrev pub new_file : Env → ℕ → Upload → Text → Bool → File
new_file env user u name is_public = record {
  id = 0;
  user_id = user;
  filename = name;
  storage_key = env.fresh_key;
  thumbnail_key = none;
  file_size = u.size;
  content_type = u.content_type;
  is_public = is_public;
  status = uploading;
  folder_id = u.folder_id;
  created_at = 0;
  deleted_at = none;
  downloads = 0;
  tags = clean_tags u.tags;
  content_hash = u.content_hash;
}

-- "Fresh file upload session"
unfoldable pub fresh_session : Env → ℕ → Upload → Text → Service (File × ℕ)
fresh_session env user u name = do
  url ← presign_upload env env.fresh_key
  is_public ← starts_public u.folder_id
  f ← create (new_file env user u name is_public)
  pure (f, url)

unfoldable pub on_conflict : Env → ℕ → Upload → ConflictAction → File → Service (File × ℕ)
on_conflict env user u replace existing = replace_existing env u existing
on_conflict env user u keep_both existing = do
  name ← resolve_non_conflicting_filename env user u.filename u.folder_id
  fresh_session env user u name
on_conflict env user u other existing = raise (conflict existing)

-- `CreateUploadSession`
unfoldable pub create_upload_session : Env → ℕ → Upload → Service (File × ℕ)
create_upload_session env user u = do
  validate_file user u.filename u.size u.content_type
  existing ← find_by_filename_and_folder user u.filename u.folder_id
  elim existing [
    | none ↦ fresh_session env user u u.filename
    | some f ↦ on_conflict env user u u.conflict_action f
  ]

-- ===== src/Vault/Access.antt =====
-- Reading files in internal/service/file_service.go: downloads by the owner and by the public,
-- metadata, thumbnails, and the count of bytes served.
use bytevault.Prelude.{
  ℕ, zero, suc, ◌+◌, ◌*◌, Bool, true, false, not, ◌&&◌, Option, none, some, [], ◌∷◌, ltb, ◌==◌,
  if◌then◌else◌,
}
use bytevault.Prelude.Action.{
  Result, ok, err, pure, modify, query, attempt, ignore, require, or_raise, when, ◌>>=◌, ◌>>◌,
}
use bytevault.Vault.{
  File, Folder, Error, query_failed, storage_failed, not_found, unauthorized, not_available,
  no_thumbnail, Service, Env,
}
use bytevault.Vault.FileRepository.{is_available, find_by_id, increment_downloads}
use bytevault.Vault.FolderRepository.{find_by_id as find_folder}
use bytevault.Vault.Completion.{find_own}

abbrev pub second : ℕ
second = 1_000_000_000

-- The last time is at least 30 seconds ago, or there is none.
abbrev pub is_due : ℕ → Option ℕ → Bool
is_due now none = true
is_due now (some last) = not (ltb now (last + 30 * second))

abbrev pub same_user : Option ℕ → Option ℕ → Bool
same_user none none = true
same_user (some u) (some v) = u == v
same_user _ _ = false

abbrev pub stored : Option ℕ → ℕ → ℕ → (Option ℕ → ℕ → Option ℕ) → Option ℕ → ℕ → Option ℕ
stored user file now m u f = if same_user u user && f == file then some now else m u f

-- `shouldRecordEgress`, with the key `userID:fileID` or `public:fileID`. The code loads and stores in two
-- steps; here no other request comes between them.
unfoldable pub should_record_egress : Option ℕ → ℕ → Service Bool
should_record_egress user file = modify λ now d.
    if is_due now (d.egress_dedupe user file)
    then (true, record d { egress_dedupe = stored user file now d.egress_dedupe })
    else (false, d)

-- `RecordEgress` of internal/repository/bandwidth_repository.go, beside the request.
unfoldable pub record_egress : Option ℕ → ℕ → ℕ → Service Unit
record_egress user file size = query query_failed λ now d. (
  tt,
  record d {
    egress = record { user_id = user; file_id = file; bytes = size; at = now } ∷ d.egress;
  },
)

-- The part of a download that counts: the number of downloads, and unless the request skips it the bytes.
unfoldable pub count_served : Option ℕ → File → Bool → Service Unit
count_served user f skip_egress = do
  ignore (increment_downloads f.id)
  when (not skip_egress) do
    due ← should_record_egress user f.id
    when due (ignore (record_egress user f.id f.file_size))

unfoldable pub presign : Env → File → Service ℕ
presign env f = query storage_failed (λ now d. (env.download_url f.storage_key f.filename, d))

-- `Download`
unfoldable pub download : Env → ℕ → ℕ → Bool → Service (ℕ × File)
download env id user skip_egress = do
  f ← find_own id user
  require (is_available f.status) not_available
  url ← presign env f
  count_served (some user) f skip_egress
  pure (url, f)

-- A round of the loop of `isAccessiblePublicly`: it ends at a public folder, at the top, or where the
-- folder is not found, and else goes on to the parent.
unfoldable pub climb : (ℕ → Service Bool) → Result Error (Option Folder) → Service Bool
climb rest (err e) = pure false
climb rest (ok none) = pure false
climb rest (ok (some f)) =
    if f.is_public
    then pure true
    else elim f.parent_id [ none ↦ pure false | some parent ↦ rest parent ]

-- Whether one of so many folders upwards is public.
unfoldable pub is_below_public : ℕ → ℕ → Service Bool
is_below_public zero id = pure false
is_below_public (suc n) id = do found ← attempt (find_folder id); climb (is_below_public n) found

abbrev pub levels : ℕ
levels = 5

-- `isAccessiblePublicly`
unfoldable pub is_accessible_publicly : File → Service Bool
is_accessible_publicly f =
    if f.is_public
    then pure true
    else elim f.folder_id [ none ↦ pure false | some folder ↦ is_below_public levels folder ]

-- What anybody may read.
unfoldable pub require_public : File → Service Unit
require_public f = do
  accessible ← is_accessible_publicly f
  require accessible unauthorized
  require (is_available f.status) not_available

unfoldable pub find_public : ℕ → Service File
find_public id = do row ← find_by_id id; f ← or_raise row not_found; require_public f; pure f

-- `DownloadPublic`
unfoldable pub download_public : Env → ℕ → Bool → Service (ℕ × File)
download_public env id skip_egress = do
  f ← find_public id
  url ← presign env f
  count_served none f skip_egress
  pure (url, f)

unfoldable pub thumbnail_url : Env → ℕ → Service ℕ
thumbnail_url env key = query storage_failed (λ now d. (env.download_url key [], d))

abbrev pub url_of : Result Error ℕ → Option ℕ
url_of (ok url) = some url
url_of (err e) = none

-- A thumbnail that cannot be signed is left out.
unfoldable pub with_thumbnail : Env → File → Service (File × Option ℕ)
with_thumbnail env f = elim f.thumbnail_key [
  | none ↦ pure (f, none)
  | some key ↦
      if ltb 0 key
      then (do url ← attempt (thumbnail_url env key); pure (f, url_of url))
      else pure (f, none)
]

-- `GetFileDetails`
unfoldable pub get_file_details : Env → ℕ → ℕ → Service (File × Option ℕ)
get_file_details env id user = do f ← find_own id user; with_thumbnail env f

-- `GetPublicMetadata`
unfoldable pub get_public_metadata : Env → ℕ → Service (File × Option ℕ)
get_public_metadata env id = do f ← find_public id; with_thumbnail env f

unfoldable pub required_thumbnail : Env → File → Service ℕ
required_thumbnail env f = do
  key ← or_raise f.thumbnail_key no_thumbnail
  require (ltb 0 key) no_thumbnail
  thumbnail_url env key

abbrev pub seen : Result Error (Option File) → Option File
seen (ok row) = row
seen (err e) = none

-- `GetThumbnail`: a query that failed counts as no row.
unfoldable pub get_thumbnail : Env → ℕ → ℕ → Service (ℕ × File)
get_thumbnail env id user = do
  row ← attempt (find_by_id id)
  f ← or_raise (seen row) not_found
  require (f.user_id == user) unauthorized
  url ← required_thumbnail env f
  pure (url, f)

-- `GetPublicThumbnailURL`
unfoldable pub get_public_thumbnail_url : Env → ℕ → Service ℕ
get_public_thumbnail_url env id = do
  row ← attempt (find_by_id id)
  f ← or_raise (seen row) not_found
  require_public f
  required_thumbnail env f

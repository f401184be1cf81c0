-- ===== src/Invites/Folders.antt =====
-- The file and folder services and their repositories, as internal/service/upload_invite_service.go uses
-- them: `ensureReceivedFolder` and `ensureSubFolder`, and what is done with the files of guests.
use bytevault.Prelude.{
  ℕ, zero, suc, Bool, false, Option, none, some, List, [], ◌∷◌, ◌++◌, if◌then◌else◌,
}
use bytevault.Prelude.Text.{Text, bytes, same, is_empty, member, decimal}
use bytevault.Prelude.Table.{find?}
use bytevault.Prelude.Action.{Result, ok, err, pure, or_raise, ◌>>=◌}
use bytevault.Vault
use bytevault.Vault.{File, Folder, Status}
use bytevault.Vault.FileRepository.{find_by_id, update_status, claim_stale_upload}
use bytevault.Vault.FolderRepository.{
  Listed, list_by_user_id, create as create_folder_row, find_by_id as find_folder_row,
}
use bytevault.Vault.Uploads.{keep_both, create_upload_session}
use bytevault.Vault.Completion.{storage_call, complete_upload}
use bytevault.Invites.{Error, not_found, vault_failed, Service, Env}

abbrev pub wrapped : {A : Type 0} → Result Vault.Error A → Result Error A
wrapped (ok a) = ok a
wrapped (err e) = err (vault_failed e)

-- An action of the file or the folder service.
unfoldable pub in_vault : {A : Type 0} → Vault.Service A → Service A
in_vault m w =
    let (r, v) = m (record { now = w.now; faults = w.faults; db = w.db.vault }) in
    (wrapped r, record { now = v.now; faults = v.faults; db = record (w.db) { vault = v.db } })

abbrev pub new_folder : ℕ → Text → Option ℕ → Folder
new_folder owner name parent = record {
  id = 0;
  user_id = owner;
  name = name;
  parent_id = parent;
  is_public = false;
  views = 0;
  deleted_at = none;
}

abbrev pub named : Text → List Listed → Option Listed
named name ls = find? (λ l. same l.folder.name name) ls

abbrev pub received_name : Text
received_name = bytes "Received"

-- `ensureReceivedFolder`
unfoldable pub ensure_received_folder : ℕ → Vault.Service Folder
ensure_received_folder owner = do
  roots ← list_by_user_id owner none
  elim (named received_name roots) [
    | some l ↦ pure l.folder
    | none ↦ create_folder_row (new_folder owner received_name none)
  ]

abbrev pub names_of : List Listed → List Text
names_of [] = []
names_of (l ∷ ls) = l.folder.name ∷ names_of ls

-- The loop over candidates from a number on; if none is free it is the name itself.
unfoldable pub first_free : Text → List Text → ℕ → ℕ → Text
first_free name taken zero i = name
first_free name taken (suc rounds) i =
    let rest = first_free name taken rounds (suc i) in
    let candidate = name ++ bytes " (" ++ decimal i ++ bytes ")" in
    if member candidate taken then rest else candidate

unfoldable pub final_name : Text → List Text → Text
final_name name taken = if member name taken then first_free name taken 99 2 else name

-- `ensureSubFolder`
unfoldable pub ensure_sub_folder : ℕ → ℕ → Text → Vault.Service Folder
ensure_sub_folder owner parent name = do
  subs ← list_by_user_id owner (some parent)
  elim (named name subs) [
    | some l ↦ pure l.folder
    | none ↦ create_folder_row (new_folder owner (final_name name (names_of subs)) (some parent))
  ]

abbrev pub sub_name : Env → Text → ℕ → Text
sub_name env label token =
    if is_empty label then bytes "Upload " ++ env.short_token token else label

-- The folder "Received / <label>" of an owner.
unfoldable pub make_folder : Env → ℕ → Text → ℕ → Service Folder
make_folder env owner label token = do
  received ← in_vault (ensure_received_folder owner)
  in_vault (ensure_sub_folder owner received.id (sub_name env label token))

unfoldable pub find_folder : ℕ → Service (Option Folder)
find_folder id = in_vault (find_folder_row id)

unfoldable pub find_file : ℕ → Service File
find_file id = do row ← in_vault (find_by_id id); or_raise row not_found

unfoldable pub update_file_status : ℕ → Status → Service Unit
update_file_status id status = in_vault (update_status id status)

unfoldable pub claim_upload : ℕ → Service Bool
claim_upload id = in_vault (claim_stale_upload id)

unfoldable pub delete_object : ℕ → Service Unit
delete_object key = in_vault (storage_call (Vault.delete key))

-- A session in the owner's name, which keeps both files where the name is taken.
unfoldable pub open_session : Env → ℕ → Text → ℕ → Text → Option ℕ → Service (File × ℕ)
open_session env owner filename size content_type folder = in_vault (
    create_upload_session env.vault owner (record {
      filename = filename;
      size = size;
      content_type = content_type;
      folder_id = folder;
      tags = [];
      conflict_action = keep_both;
      content_hash = none;
    }))

unfoldable pub complete_file : Env → ℕ → ℕ → Service Unit
complete_file env file owner = in_vault (complete_upload env.vault file owner none)

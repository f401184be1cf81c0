-- ===== src/Vault/Owner.antt =====
-- What an owner does to a file in internal/service/file_service.go, and the purge of removed files.
use bytevault.Prelude.{ℕ, Bool, not, Option, ◌==◌}
use bytevault.Prelude.Text.{Text, is_empty, trim_space}
use bytevault.Prelude.Action.{pure, require, or_raise, ◌>>=◌, ◌>>◌}
use bytevault.Vault.{File, not_found, empty_name, Service}
use bytevault.Vault.FileRepository.{
  find_by_id, update_public_status, move_row, rename_row, soft_delete,
}
use bytevault.Vault.Completion.{find_own}

-- `file == nil || file.UserID != userID`
unfoldable pub find_mine : ℕ → ℕ → Service File
find_mine id user = do
  row ← find_by_id id
  f ← or_raise row not_found
  require (f.user_id == user) not_found
  pure f

-- `ToggleShareStatus`
unfoldable pub toggle_share_status : ℕ → ℕ → Bool → Service Unit
toggle_share_status id user is_public = do f ← find_mine id user; update_public_status id is_public

-- `MoveFile`
unfoldable pub move_file : ℕ → ℕ → Option ℕ → Service Unit
move_file id user folder = do f ← find_mine id user; move_row id folder

-- `RenameFile`
unfoldable pub rename_file : ℕ → ℕ → Text → Service Unit
rename_file id user name = do
  f ← find_mine id user
  require (not (is_empty (trim_space name))) empty_name
  rename_row id (trim_space name)

-- `Delete`
unfoldable pub delete_file : ℕ → ℕ → Service Unit
delete_file id user = do f ← find_own id user; soft_delete id

-- ===== src/Vault/Aborts.antt =====
-- An upload in parts that cannot be opened is aborted.
use bytevault.Prelude.{List, ◌∷◌, ◌≡◌, ◌⊎◌}
use bytevault.Prelude.Text.{Text}
use bytevault.Prelude.Action.Keeps.{Keeps}
use bytevault.Prelude.Action.Settles.{Settles}
use bytevault.Vault.{Db, Env, Error, initiate_failed, StorageCall, initiate, abort}
use bytevault.Vault.FolderRepository.{find_by_id as find_folder}

module _ (env : Env) (cs : List StorageCall) where
  abbrev Start : Db → Type 0
  Start d = d.calls ≡ cs

  -- The upload has begun and nothing else was asked of the storage.
  abbrev pub Begun : Db → Type 0
  Begun d = d.calls ≡ initiate env.fresh_key env.fresh_upload_id ∷ cs

  -- It was not begun, or was aborted.
  abbrev pub Clean : Db → Type 0
  Clean d =
      (d.calls ≡ cs)
      ⊎ (d.calls
          ≡ abort env.fresh_key env.fresh_upload_id
            ∷ initiate env.fresh_key env.fresh_upload_id
            ∷ cs)

  unfoldable Aborted : Db → Type 0
  Aborted d =
      d.calls
      ≡ abort env.fresh_key env.fresh_upload_id ∷ initiate env.fresh_key env.fresh_upload_id ∷ cs

  -- Clean, or the initiation itself reported a failure.
  abbrev pub Failed : Error → Db → Type 0
  Failed e d = Clean d ⊎ ((e ≡ initiate_failed) × Begun d)

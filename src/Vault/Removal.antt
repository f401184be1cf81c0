-- ===== src/Vault/Removal.antt =====
-- A file from its removal to the purge.
use bytevault.Prelude.{
  ℕ, Bool, true, none, some, List, [], ◌∷◌, ◌≡◌, ◌≢◌, refl, sym, subst, arith, inl, inr, All, ltb,
  ◌==◌, ==_iff, if◌then◌else◌, Bool-cases,
}
use bytevault.Prelude.Table.{find?, update, delete, found, find?-holds}
use bytevault.Prelude.Table.Keys.{Distinct, Distinct-update, by_key, find?-by_key, find?-update_key}
use bytevault.Prelude.Action.{◌>>=◌}
use bytevault.Vault.{File, Db}
use bytevault.Vault.FileRepository.{
  is_live_id, find_by_id, update_file, set_deleted, soft_delete, deleted_before,
  purge_soft_deleted_before,
}
use bytevault.Vault.Completion.{find_own}
use bytevault.Vault.Owner.{delete_file}
use bytevault.Vault.Ownership.{id_of}
use bytevault.Vault.Public.{reliable}

absent-find? :
    (k : ℕ) (rs : List File)
    → All (λ r. r.id ≢ k) rs
    → (q : File → Bool) → find? (by_key id_of k) (delete q rs) ≡ none
unfolding find? delete
absent-find? k [] h q = refl
absent-find? k (r ∷ rs) h q = elim (Bool-cases (q r)) [
  | inl t ↦ rw t (absent-find? k rs h.1 q)
  | inr t ↦ elim (Bool-cases (r.id == k)) [
    | inl e ↦ absurd (h.0 ((==_iff _ _).0 e))
    | inr e ↦ rw (t, e) (absent-find? k rs h.1 q)
  ]
]

-- The row with a key after a DELETE.
find?-delete_key :
    (k : ℕ) (q : File → Bool) (rs : List File) (r : File)
    → Distinct id_of rs
    → find? (by_key id_of k) rs ≡ some r
    → find? (by_key id_of k) (delete q rs) ≡ (if q r then none else some r)
unfolding find? delete
find?-delete_key k q [] r d e = cc
find?-delete_key k q (x ∷ rs) r d e = elim (Bool-cases (x.id == k)) [
  | inl t ↦
      let same : x ≡ r = found _ _ _ _ t e in
      let others = subst (λ j. All (λ y. y.id ≢ j) rs) ((==_iff _ _).0 t) d.0 in
      elim (Bool-cases (q x)) [
        | inl y ↦ rw (sym same, y) (absent-find? k rs others q)
        | inr y ↦ rw (sym same, y, t) refl
      ]
  | inr t ↦ elim (Bool-cases (q x)) [
    | inl y ↦ rw y (find?-delete_key k q rs r d.1 (rw t at e))
    | inr y ↦ rw (y, t) (find?-delete_key k q rs r d.1 (rw t at e))
  ]
]

removed :
    (id now : ℕ) (rs : List File)
    → find? (is_live_id id) (update (λ r. r.id == id) (set_deleted now) rs) ≡ none
unfolding find? update
removed id now [] = refl
removed id now (r ∷ rs) = elim (Bool-cases (r.id == id)) [
  | inl e ↦ rw (e, e) (removed id now rs)
  | inr e ↦ rw (e, e) (removed id now rs)
]

-- A file that its owner removes at some time is found no more; and when nothing fails its row is gone after
-- a purge just when the purge's cutoff is past that time.
pub delete-purge :
    (id user now later cutoff : ℕ) (d : Db) (f : File)
    → Distinct id_of d.files
    → find? (is_live_id id) d.files ≡ some f
    → (f.user_id == user) ≡ true
    → let d' = (delete_file id user (reliable now d)).1.db in
      (find? (is_live_id id) d'.files ≡ none)
      × (find? (by_key id_of id) (purge_soft_deleted_before cutoff (reliable later d')).1.db.files
          ≡ (if ltb now cutoff then none else some (set_deleted now f)))
unfolding delete_file find_own find_by_id soft_delete update_file purge_soft_deleted_before ◌>>=◌
delete-purge id user now later cutoff d f distinct there own =
    rw (there, own)
      (
        removed id now d.files,
        find?-delete_key id (deleted_before cutoff)
            (update (λ r. r.id == id) (set_deleted now) d.files) (set_deleted now f)
            (Distinct-update id_of _ (set_deleted now) d.files (λ r. refl) distinct)
            (find?-update_key id_of id (set_deleted now) d.files f (λ r. refl) by_id),
      )
  where
    same : is_live_id id f ≡ true → f.id ≡ id
    same e = ground arith

    by_id : find? (by_key id_of id) d.files ≡ some f
    by_id =
        subst (λ k. find? (by_key id_of k) d.files ≡ some f)
          (same (find?-holds (is_live_id id) d.files f there))
          (find?-by_key id_of (is_live_id id) d.files f distinct there)

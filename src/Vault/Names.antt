-- ===== src/Vault/Names.antt =====
-- The names that `ResolveNonConflictingFilename` gives.
use bytevault.Prelude.{
  ℕ, zero, suc, Option, none, some, ◌≡◌, sym, subst, ◌⊎◌, inl, inr, Option-cases,
}
use bytevault.Prelude.Text.{Text, decimal}
use bytevault.Prelude.Table.{find?}
use bytevault.Prelude.Action.{World, ok, pure}
use bytevault.Prelude.Action.Answers.{read-then, pure-then}
use bytevault.Vault.{File, Db, Env, Error, query_failed, Service}
use bytevault.Vault.FileRepository.{is_named, find_by_filename_and_folder}
use bytevault.Vault.Uploads.{with_suffix, try_candidates, resolve_non_conflicting_filename}

module _ (env : Env) (user : ℕ) (name : Text) (folder : Option ℕ) where
  abbrev pub IsFree : Db → Text → Type 0
  IsFree d t = find? (is_named user t folder) d.files ≡ none

  abbrev pub IsTaken : Db → Text → Type 0
  IsTaken d t = (f : File) × (find? (is_named user t folder) d.files ≡ some f)

  -- The candidates of so many rounds.
  abbrev pub AllTaken : Db → ℕ → ℕ → Text → Type 0
  AllTaken d zero counter t = Unit
  AllTaken d (suc n) counter t =
      IsTaken d t × AllTaken d n (suc counter) (with_suffix name (decimal counter))

  try-IsFree :
      (rounds counter : ℕ) (candidate : Text) (w : World Db) (t : Text)
      → (try_candidates env user name folder rounds counter candidate w).0 ≡ ok t
      → IsFree w.db t
        ⊎ ((t ≡ with_suffix name env.fresh_suffix) × AllTaken w.db rounds counter candidate)
  unfolding try_candidates find_by_filename_and_folder
  try-IsFree zero counter candidate w t h = inr (sym (pure-then _ t w h), tt)
  try-IsFree (suc n) counter candidate w t h =
      read-then query_failed (λ now d. find? (is_named user candidate folder) d.files)
        (next n counter candidate) w t h
        λ v same now a. elim (Option-cases (find? (is_named user candidate folder) w.db.files)) [
          | inl e ↦
              let b : (pure {E = Error} candidate v).0 ≡ ok t = rw e at a in
              inl (subst (IsFree w.db) (pure-then candidate t v b) e)
          | inr (f, e) ↦
              let b : (try_candidates env user name folder n (suc counter)
                    (with_suffix name (decimal counter)) v).0
                  ≡ ok t =
                rw e at a in
              later n counter candidate w v t (f, e) same (try-IsFree n (suc counter) _ v t b)
        ]
    where
      next : ℕ → ℕ → Text → Option File → Service Text
      next n counter candidate o = elim o [
        | none ↦ pure candidate
        | some f ↦
            try_candidates env user name folder n (suc counter) (with_suffix name (decimal counter))
      ]

      later :
          (n counter : ℕ) (candidate : Text) (w v : World Db) (t : Text)
          → IsTaken w.db candidate
          → v.db ≡ w.db
          → IsFree v.db t
            ⊎ ((t ≡ with_suffix name env.fresh_suffix)
                × AllTaken v.db n (suc counter) (with_suffix name (decimal counter)))
          → IsFree w.db t
            ⊎ ((t ≡ with_suffix name env.fresh_suffix) × AllTaken w.db (suc n) counter candidate)
      later n counter candidate w v t taken same (inl free) =
          inl (subst (λ d. IsFree d t) same free)
      later n counter candidate w v t taken same (inr (e, all)) = inr (
        e,
        (
          taken,
          subst (λ d. AllTaken d n (suc counter) (with_suffix name (decimal counter))) same all,
        ),
      )

  -- A name that is answered, whatever fails on the way, is the name of none of the user's files in the
  -- folder; or it ends in a part of a UUID, and the name and its 99 numbered forms were all taken.
  pub resolve-IsFree :
      (w : World Db) (t : Text)
      → (resolve_non_conflicting_filename env user name folder w).0 ≡ ok t
      → IsFree w.db t ⊎ ((t ≡ with_suffix name env.fresh_suffix) × AllTaken w.db 100 1 name)
  unfolding resolve_non_conflicting_filename
  resolve-IsFree w t h = try-IsFree 100 1 name w t h

-- ===== src/Prelude/Table/Counts.antt =====
-- How many rows a WHERE clause selects, before and after an UPDATE.
use mathlib.Core.List.{List, [], ◌∷◌}
use mathlib.Core.Path.{◌≡◌, refl, subst, ap, sym, ◌∙◌}
use mathlib.Core.Logic.{◌≢◌, inl, inr}
use mathlib.Core.Bool.{Bool, true, false}
use mathlib.Core.Option.{some}
use Prim.Native.Nat.{ℕ, suc}
use native.Mathlib.Omega.{arith}
use bytevault.Prelude.Tests.{◌==◌, ==_iff, ==_refl, if◌then◌else◌, Bool-cases}
use bytevault.Prelude.Lists.{All, All-imp, length}
use bytevault.Prelude.Table.{found, find?, update, select, count_where, All-find?}
use bytevault.Prelude.Table.Keys.{Distinct, by_key, update-absent}

module _ {ℓ} {Row : Type ℓ} where
  pub length-select : (p : Row → Bool) (rs : List Row) → length (select p rs) ≡ count_where p rs
  unfolding select count_where
  length-select p [] = refl
  length-select p (r ∷ rs) = ground (arith, length-select p rs)

  pub All-select {κ} :
      (P : Row → Type κ) (p : Row → Bool) (rs : List Row) → All P rs → All P (select p rs)
  unfolding select
  All-select P p [] h = tt
  All-select P p (r ∷ rs) h = elim (Bool-cases (p r)) [
    | inl e ↦ rw e (h.0, All-select P p rs h.1)
    | inr e ↦ rw e (All-select P p rs h.1)
  ]

  pub All-selected : (p : Row → Bool) (rs : List Row) → All (λ r. p r ≡ true) (select p rs)
  unfolding select
  All-selected p [] = tt
  All-selected p (r ∷ rs) = elim (Bool-cases (p r)) [
    | inl e ↦ rw e (e, All-selected p rs)
    | inr e ↦ rw e (All-selected p rs)
  ]

  -- An UPDATE that the clause does not see.
  pub count_where-update :
      (p q : Row → Bool) (f : Row → Row) (rs : List Row)
      → ((r : Row) → q r ≡ true → p (f r) ≡ p r)
      → count_where p (update q f rs) ≡ count_where p rs
  unfolding update count_where
  count_where-update p q f [] h = refl
  count_where-update p q f (r ∷ rs) h = elim (Bool-cases (q r)) [
    | inl e ↦ rw (e, h r e) (ap (λ n. if p r then suc n else n) (count_where-update p q f rs h))
    | inr e ↦ rw e (ap (λ n. if p r then suc n else n) (count_where-update p q f rs h))
  ]

  pub count_where-none :
      (p : Row → Bool) (rs : List Row) → count_where p rs ≡ 0 → All (λ r. p r ≡ false) rs
  unfolding count_where
  count_where-none p [] h = tt
  count_where-none p (r ∷ rs) h = elim (Bool-cases (p r)) [
    | inl e ↦ let z : suc (count_where p rs) ≡ 0 = rw e at h in absurd (omega (arith, z))
    | inr e ↦ (e, count_where-none p rs (rw e at h))
  ]

module _ {ℓ} {Row : Type ℓ} (key : Row → ℕ) where
  pub Distinct-select :
      (p : Row → Bool) (rs : List Row) → Distinct key rs → Distinct key (select p rs)
  unfolding select
  Distinct-select p [] d = tt
  Distinct-select p (r ∷ rs) d = elim (Bool-cases (p r)) [
    | inl e ↦ rw e (All-select _ p rs d.0, Distinct-select p rs d.1)
    | inr e ↦ rw e (Distinct-select p rs d.1)
  ]

  -- The rows are found by their keys.
  pub found_by_key :
      (rs : List Row) → Distinct key rs → All (λ r. find? (by_key key (key r)) rs ≡ some r) rs
  unfolding find?
  found_by_key [] d = tt
  found_by_key (r ∷ rs) d =
      (rw (==_refl (key r)), All-imp (λ q h. later q h) rs (found_by_key rs d.1))
    where
      later :
          (q : Row)
          → find? (by_key key (key q)) rs ≡ some q
          → (if by_key key (key q) r then some r else find? (by_key key (key q)) rs) ≡ some q
      later q h = elim (Bool-cases (key r == key q)) [
        | inl same ↦
            absurd ((All-find? (λ x. key x ≢ key r) _ rs q d.0 h).0 (sym ((==_iff _ _).0 same)))
        | inr differ ↦ rw differ h
      ]

  -- An UPDATE by key that takes its row out of the clause.
  pub count_where-update_key :
      (p : Row → Bool) (f : Row → Row) (rs : List Row) (s : Row)
      → Distinct key rs
      → find? (by_key key (key s)) rs ≡ some s
      → p s ≡ true
      → p (f s) ≡ false
      → suc (count_where p (update (by_key key (key s)) f rs)) ≡ count_where p rs
  unfolding find? update count_where
  count_where-update_key p f [] s d e yes_ no_ = cc
  count_where-update_key p f (r ∷ rs) s d e yes_ no_ = elim (Bool-cases (key r == key s)) [
    | inl t ↦
        let same : r ≡ s = found _ _ _ _ t e in
        let rest : update (by_key key (key s)) f rs ≡ rs =
          update-absent key (key s) f rs
            (subst (λ j. All (λ q. key q ≢ j) rs) ((==_iff _ _).0 t) d.0) in
        rw (t, same, yes_, no_, rest)
    | inr t ↦
        let ih = count_where-update_key p f rs s d.1 (rw t at e) yes_ no_ in
        rw t (step (p r) _ _ ih)
  ]
    where
      step :
          (b : Bool) (m n : ℕ) → suc m ≡ n → suc (if b then suc m else m) ≡ (if b then suc n else n)
      step b m n h = ground arith

  pub find?-update_other :
      (j k : ℕ) (f : Row → Row) (rs : List Row)
      → j ≢ k
      → ((r : Row) → key (f r) ≡ key r)
      → find? (by_key key j) (update (by_key key k) f rs) ≡ find? (by_key key j) rs
  unfolding find? update
  find?-update_other j k f [] n same = refl
  find?-update_other j k f (r ∷ rs) n same = elim (Bool-cases (key r == k)) [
    | inl t ↦ elim (Bool-cases (key r == j)) [
      | inl u ↦ absurd (n (sym ((==_iff _ _).0 u) ∙ (==_iff _ _).0 t))
      | inr u ↦ rw (t, same r, u) (find?-update_other j k f rs n same)
    ]
    | inr t ↦ rw t (ap (λ o. if key r == j then some r else o) (find?-update_other j k f rs n same))
  ]

-- ===== src/Prelude/Table/Keys.antt =====
-- Tables with a unique column, whose values tell the rows apart.
use mathlib.Core.List.{List, [], ◌∷◌}
use mathlib.Core.Path.{◌≡◌, refl, subst, ap, sym, ◌∙◌}
use mathlib.Core.Logic.{◌≢◌, inl, inr}
use mathlib.Core.Bool.{Bool, true, false}
use mathlib.Core.Option.{none, some}
use Prim.Native.Nat.{ℕ, zero, suc}
use native.Mathlib.Omega.{arith}
use bytevault.Prelude.Tests.{◌==◌, ==_iff, ==_refl, if◌then◌else◌, Bool-cases}
use bytevault.Prelude.Lists.{All, All-take, take}
use bytevault.Prelude.Table.{found, find?, update, delete, All-update, All-delete, All-find?}

-- A UNIQUE column: the rows' keys differ.
module _ {ℓ} {Row : Type ℓ} (key : Row → ℕ) where
  abbrev pub Distinct : List Row → Type 0
  Distinct [] = Unit
  Distinct (r ∷ rs) = All (λ q. key q ≢ key r) rs × Distinct rs

  abbrev pub by_key : ℕ → Row → Bool
  by_key k r = key r == k

  pub update-absent :
      (k : ℕ) (f : Row → Row) (rs : List Row)
      → All (λ q. key q ≢ k) rs
      → update (by_key k) f rs ≡ rs
  unfolding update
  update-absent k f [] h = refl
  update-absent k f (r ∷ rs) h = elim (Bool-cases (key r == k)) [
    | inl e ↦ absurd (h.0 ((==_iff _ _).0 e))
    | inr e ↦ rw e (ap (◌∷◌ r) (update-absent k f rs h.1))
  ]

  -- An UPDATE by a unique key changes the selected row alone.
  pub All-update_key {κ} :
      (P : Row → Type κ) (k : ℕ) (f : Row → Row) (rs : List Row) (s : Row)
      → Distinct rs
      → find? (by_key k) rs ≡ some s
      → P (f s)
      → All P rs
      → All P (update (by_key k) f rs)
  unfolding find? update
  All-update_key P k f [] s d e new h = tt
  All-update_key P k f (r ∷ rs) s d e new h = elim (Bool-cases (key r == k)) [
    | inl t ↦ rw t (
      subst (λ x. P (f x)) (sym (found _ _ _ _ t e)) new,
      rw (update-absent k f rs (subst (λ j. All (λ q. key q ≢ j) rs) ((==_iff _ _).0 t) d.0)) h.1,
    )
    | inr t ↦ rw t (h.0, All-update_key P k f rs s d.1 (rw t at e) new h.1)
  ]

  -- The row that is found is also the one that its key selects.
  pub find?-by_key :
      (p : Row → Bool) (rs : List Row) (s : Row)
      → Distinct rs
      → find? p rs ≡ some s
      → find? (by_key (key s)) rs ≡ some s
  unfolding find?
  find?-by_key p [] s d e = e
  find?-by_key p (r ∷ rs) s d e = elim (Bool-cases (p r)) [
    | inl t ↦
        let same : r ≡ s = found _ _ _ _ t e in
        subst (λ x. find? (by_key (key s)) (x ∷ rs) ≡ some s) (sym same) (rw (==_refl (key s)))
    | inr t ↦
        let later = All-find? (λ q. key q ≢ key r) p rs s d.0 (rw t at e) in
        elim (Bool-cases (key r == key s)) [
          | inl same ↦ absurd (later.0 (sym ((==_iff _ _).0 same)))
          | inr differ ↦ rw differ (find?-by_key p rs s d.1 (rw t at e))
        ]
  ]

  key-if :
      (b : Bool) (f : Row → Row) (r : Row) → key (f r) ≡ key r → key (if b then f r else r) ≡ key r
  key-if b f r h = ground arith

  -- What leaves the keys alone keeps them distinct.
  pub Distinct-update :
      (p : Row → Bool) (f : Row → Row) (rs : List Row)
      → ((r : Row) → key (f r) ≡ key r)
      → Distinct rs
      → Distinct (update p f rs)
  unfolding update
  Distinct-update p f [] same d = tt
  Distinct-update p f (r ∷ rs) same d = (
    rw (key-if (p r) f r (same r)) (All-update _ p f rs (λ q _ h. rw (same q) h) d.0),
    Distinct-update p f rs same d.1,
  )

  pub Distinct-delete : (p : Row → Bool) (rs : List Row) → Distinct rs → Distinct (delete p rs)
  unfolding delete
  Distinct-delete p [] d = tt
  Distinct-delete p (r ∷ rs) d = elim (Bool-cases (p r)) [
    | inl e ↦ rw e (Distinct-delete p rs d.1)
    | inr e ↦ rw e (All-delete _ p rs d.0, Distinct-delete p rs d.1)
  ]

  -- A key that no row has.
  pub fresh-All : (k : ℕ) (rs : List Row) → find? (by_key k) rs ≡ none → All (λ q. key q ≢ k) rs
  unfolding find?
  fresh-All k [] e = tt
  fresh-All k (r ∷ rs) e = elim (Bool-cases (key r == k)) [
    | inl t ↦ let h : some r ≡ none = rw t at e in absurd cc
    | inr t ↦ ((λ h. differ (sym t ∙ (==_iff _ _).1 h)), fresh-All k rs (rw t at e))
  ]
    where
      differ : false ≡ true → ⊥
      differ z = cc

  -- What an UPDATE by a key does to the row that the key selects.
  pub find?-update_key :
      (k : ℕ) (f : Row → Row) (rs : List Row) (r : Row)
      → ((q : Row) → key (f q) ≡ key q)
      → find? (by_key k) rs ≡ some r
      → find? (by_key k) (update (by_key k) f rs) ≡ some (f r)
  unfolding find? update
  find?-update_key k f [] r same e = cc
  find?-update_key k f (q ∷ rs) r same e = elim (Bool-cases (key q == k)) [
    | inl t ↦ rw (t, same q, t) (ap (λ x. some (f x)) (found _ _ _ _ t e))
    | inr t ↦ rw (t, t) (find?-update_key k f rs r same (rw t at e))
  ]

  pub Distinct-take : (n : ℕ) (rs : List Row) → Distinct rs → Distinct (take n rs)
  Distinct-take zero rs d = tt
  Distinct-take (suc n) [] d = tt
  Distinct-take (suc n) (r ∷ rs) d = (All-take _ n rs d.0, Distinct-take n rs d.1)

-- ===== src/Prelude/Table.antt =====
-- A database table as the list of its rows, and what a statement does to it: a SELECT of one row,
-- an UPDATE or DELETE with a WHERE clause, a COUNT.
pub mod Keys
pub mod Counts
use mathlib.Core.List.{List, [], ◌∷◌}
use mathlib.Core.Path.{◌≡◌, refl, subst, ap, ap₂, sym, ◌∙◌}
use mathlib.Core.Logic.{◌≢◌, inl, inr}
use mathlib.Core.Bool.{Bool, true, false}
use mathlib.Core.Option.{Option, none, some}
use Prim.Native.Nat.{ℕ, suc}
use native.Mathlib.Omega.{arith}
use bytevault.Prelude.Tests.{◌==◌, ==_iff, ==_refl, if◌then◌else◌, Bool-cases, is_some}
use bytevault.Prelude.Lists.{All}

pub found {ℓ} :
    {A : Type ℓ} (b : Bool) (q r : A) (o : Option A)
    → b ≡ true
    → (if b then some q else o) ≡ some r
    → q ≡ r
found b q r o h e = ground arith

module _ {ℓ} {Row : Type ℓ} where
  -- The first row of a SELECT ... LIMIT 1.
  unfoldable pub find? : (Row → Bool) → List Row → Option Row
  find? p [] = none
  find? p (r ∷ rs) = if p r then some r else find? p rs

  unfoldable pub update : (Row → Bool) → (Row → Row) → List Row → List Row
  update p f [] = []
  update p f (r ∷ rs) = (if p r then f r else r) ∷ update p f rs

  unfoldable pub delete : (Row → Bool) → List Row → List Row
  delete p [] = []
  delete p (r ∷ rs) = if p r then delete p rs else r ∷ delete p rs

  unfoldable pub select : (Row → Bool) → List Row → List Row
  select p [] = []
  select p (r ∷ rs) = if p r then r ∷ select p rs else select p rs

  unfoldable pub count_where : (Row → Bool) → List Row → ℕ
  count_where p [] = 0
  count_where p (r ∷ rs) = if p r then suc (count_where p rs) else count_where p rs

  pub All-update {κ} :
      (P : Row → Type κ) (p : Row → Bool) (f : Row → Row) (rs : List Row)
      → ((r : Row) → p r ≡ true → P r → P (f r))
      → All P rs
      → All P (update p f rs)
  unfolding update
  All-update P p f [] step h = tt
  All-update P p f (r ∷ rs) step h = elim (Bool-cases (p r)) [
    | inl e ↦ rw e (step r e h.0, All-update P p f rs step h.1)
    | inr e ↦ rw e (h.0, All-update P p f rs step h.1)
  ]

  -- What holds of a row after an UPDATE, whether it was selected or not.
  pub All-updated {κ} :
      (P : Row → Type κ) (p : Row → Bool) (f : Row → Row) (rs : List Row)
      → ((r : Row) → p r ≡ true → P (f r))
      → ((r : Row) → p r ≡ false → P r)
      → All P (update p f rs)
  unfolding update
  All-updated P p f [] yes_ no_ = tt
  All-updated P p f (r ∷ rs) yes_ no_ = elim (Bool-cases (p r)) [
    | inl e ↦ rw e (yes_ r e, All-updated P p f rs yes_ no_)
    | inr e ↦ rw e (no_ r e, All-updated P p f rs yes_ no_)
  ]

  pub All-delete {κ} :
      (P : Row → Type κ) (p : Row → Bool) (rs : List Row) → All P rs → All P (delete p rs)
  unfolding delete
  All-delete P p [] h = tt
  All-delete P p (r ∷ rs) h = elim (Bool-cases (p r)) [
    | inl e ↦ rw e (All-delete P p rs h.1)
    | inr e ↦ rw e (h.0, All-delete P p rs h.1)
  ]

  pub All-find? {κ} :
      (P : Row → Type κ) (p : Row → Bool) (rs : List Row) (r : Row)
      → All P rs
      → find? p rs ≡ some r
      → P r × (p r ≡ true)
  unfolding find?
  All-find? P p [] r h e = cc
  All-find? P p (q ∷ rs) r h e = elim (Bool-cases (p q)) [
    | inl t ↦ subst (λ x. P x × (p x ≡ true)) (found _ _ _ _ t e) (h.0, t)
    | inr t ↦ All-find? P p rs r h.1 (rw t at e)
  ]

  pub find?-holds : (p : Row → Bool) (rs : List Row) (r : Row) → find? p rs ≡ some r → p r ≡ true
  unfolding find?
  find?-holds p [] r e = cc
  find?-holds p (q ∷ rs) r e = elim (Bool-cases (p q)) [
    | inl t ↦ subst (λ x. p x ≡ true) (found _ _ _ _ t e) t
    | inr t ↦ find?-holds p rs r (rw t at e)
  ]

  -- A row that one search finds is there for another.
  pub find?-also :
      (p q : Row → Bool) (rs : List Row) (r : Row)
      → find? p rs ≡ some r
      → q r ≡ true
      → (s : Row) × (find? q rs ≡ some s)
  unfolding find?
  find?-also p q [] r e t = cc
  find?-also p q (x ∷ rs) r e t = elim (Bool-cases (q x)) [
    | inl here ↦ (x, rw here)
    | inr away ↦ elim (Bool-cases (p x)) [
      | inl h ↦
          let differ : true ≡ false = sym t ∙ ap q (sym (found _ _ _ _ h e)) ∙ away in absurd cc
      | inr h ↦ let (s, there) = find?-also p q rs r (rw h at e) t in (s, rw away there)
    ]
  ]

  -- An UPDATE that selects no row changes nothing.
  pub update-none :
      (p : Row → Bool) (f : Row → Row) (rs : List Row) → find? p rs ≡ none → update p f rs ≡ rs
  unfolding find? update
  update-none p f [] e = refl
  update-none p f (r ∷ rs) e = elim (Bool-cases (p r)) [
    | inl t ↦ let h : some r ≡ none = rw t at e in cc
    | inr t ↦ rw t (ap (◌∷◌ r) (update-none p f rs (rw t at e)))
  ]

  -- A DELETE of other rows.
  pub find?-delete :
      (p q : Row → Bool) (rs : List Row)
      → ((r : Row) → p r ≡ true → q r ≡ false)
      → find? p (delete q rs) ≡ find? p rs
  unfolding find? delete
  find?-delete p q [] h = refl
  find?-delete p q (r ∷ rs) h = elim (Bool-cases (q r)) [
    | inl t ↦ elim (Bool-cases (p r)) [
      | inl u ↦ let z : true ≡ false = sym t ∙ h r u in cc
      | inr u ↦ rw (t, u) (find?-delete p q rs h)
    ]
    | inr t ↦ rw t (ap (λ o. if p r then some r else o) (find?-delete p q rs h))
  ]

  -- An UPDATE that leaves the search condition alone.
  pub is_some-find?-update :
      (p q : Row → Bool) (f : Row → Row) (rs : List Row)
      → ((r : Row) → p (f r) ≡ p r)
      → is_some (find? p (update q f rs)) ≡ is_some (find? p rs)
  unfolding find? update
  is_some-find?-update p q f [] h = refl
  is_some-find?-update p q f (r ∷ rs) h = ground (arith, h r, is_some-find?-update p q f rs h)

  -- The row found after an UPDATE that leaves the search condition alone.
  pub find?-update_same :
      (p q : Row → Bool) (f : Row → Row) (rs : List Row) (s : Row)
      → ((r : Row) → p (f r) ≡ p r)
      → find? p rs ≡ some s
      → find? p (update q f rs) ≡ some (if q s then f s else s)
  unfolding find? update
  find?-update_same p q f [] s h e = cc
  find?-update_same p q f (r ∷ rs) s h e = elim (Bool-cases (p r)) [
    | inl t ↦ rw (here (q r) r t) (ap (λ x. some (if q x then f x else x)) (found _ _ _ _ t e))
    | inr t ↦ rw (away (q r) r t) (find?-update_same p q f rs s h (rw t at e))
  ]
    where
      here : (b : Bool) (r : Row) → p r ≡ true → p (if b then f r else r) ≡ true
      here b r t = ground (arith, h r)

      away : (b : Bool) (r : Row) → p r ≡ false → p (if b then f r else r) ≡ false
      away b r t = ground (arith, h r)

  pub update-update :
      (p : Row → Bool) (f g : Row → Row) (rs : List Row)
      → ((r : Row) → p (g r) ≡ p r)
      → update p f (update p g rs) ≡ update p (λ r. f (g r)) rs
  unfolding update
  update-update p f g [] h = refl
  update-update p f g (r ∷ rs) h = ap₂ ◌∷◌ (head r) (update-update p f g rs h)
    where
      head :
          (r : Row)
          → (if p (if p r then g r else r)
              then f (if p r then g r else r)
              else (if p r then g r else r))
            ≡ (if p r then f (g r) else r)
      head r = ground (arith, h r)

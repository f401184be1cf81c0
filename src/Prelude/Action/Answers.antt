-- ===== src/Prelude/Action/Answers.antt =====
-- What an action that returns a value has gone through.
use mathlib.Core.Path.{◌≡◌, refl}
use mathlib.Core.Bool.{Bool, true, false}
use mathlib.Core.Option.{Option, none, some}
use mathlib.Core.List.{List}
use Prim.Native.Nat.{ℕ}
use bytevault.Prelude.Action.{
  World, Result, ok, err, Action, query, attempt, pure, or_raise, require, continue, next_fault,
  settle, ◌>>=◌, ◌>>◌,
}

module _ {E D A B : Type 0} where
  pub bind-ok {ℓ} :
      {P : Type ℓ} (m : Action E D A) (f : A → Action E D B) (w : World D) (b : B)
      → ((m >>= f) w).0 ≡ ok b
      → ((a : A) → (m w).0 ≡ ok a → (f a (m w).1).0 ≡ ok b → P)
      → P
  unfolding ◌>>=◌
  bind-ok {P} m f w b h k = go (m w) h k
    where
      go :
          (r : Result E A × World D)
          → (continue r.0 f r.1).0 ≡ ok b
          → ((a : A) → r.0 ≡ ok a → (f a r.1).0 ≡ ok b → P)
          → P
      go (ok a, v) h k = k a refl h
      go (err e, v) h k = cc

module _ {E D A : Type 0} where
  pub require-ok {ℓ} :
      {P : Type ℓ} (b : Bool) (e : E) (m : Action E D A) (w : World D) (a : A)
      → ((require b e >> m) w).0 ≡ ok a
      → (b ≡ true → (m w).0 ≡ ok a → P)
      → P
  unfolding ◌>>=◌
  require-ok true e m w a h k = k refl h
  require-ok false e m w a h k = cc

  pub query-ok :
      (e : E) (f : ℕ → D → A × D) (w : World D) (a : A)
      → (query e f w).0 ≡ ok a
      → (f w.now w.db).0 ≡ a
  unfolding ◌>>=◌
  query-ok e f w a h = go (next_fault w.faults).0 (next_fault w.faults).1 h
    where
      go :
          (b : Bool) (bs : List Bool)
          → (settle b e bs w (f w.now w.db)).0 ≡ ok a
          → (f w.now w.db).0 ≡ a
      go true bs h = cc
      go false bs h = cc

-- A read answers, and the rest has answered in the same state.
module _ {E D A B : Type 0} where
  pub read-then {ℓ} :
      {P : Type ℓ} (e : E) (f : ℕ → D → A) (k : A → Action E D B) (w : World D) (b : B)
      → ((query e (λ n d. (f n d, d)) >>= k) w).0 ≡ ok b
      → ((v : World D) → v.db ≡ w.db → v.now ≡ w.now → (k (f w.now w.db) v).0 ≡ ok b → P)
      → P
  unfolding ◌>>=◌
  read-then {P} e f k w b h rest = go (next_fault w.faults).0 (next_fault w.faults).1 h
    where
      go :
          (c : Bool) (bs : List Bool)
          → (continue
              (settle c e bs w (f w.now w.db, w.db)).0
              k
              (settle c e bs w (f w.now w.db, w.db)).1).0
            ≡ ok b
          → P
      go true bs h = cc
      go false bs h = rest _ refl refl h

  -- Likewise where the caller looks at the error.
  pub attempt-then {ℓ} :
      {P : Type ℓ} (e : E) (f : ℕ → D → A) (k : Result E A → Action E D B) (w : World D) (b : B)
      → ((attempt (query e (λ n d. (f n d, d))) >>= k) w).0 ≡ ok b
      → ((v : World D) → v.db ≡ w.db → v.now ≡ w.now → (k (err e) v).0 ≡ ok b → P)
      → ((v : World D) → v.db ≡ w.db → v.now ≡ w.now → (k (ok (f w.now w.db)) v).0 ≡ ok b → P)
      → P
  unfolding ◌>>=◌
  attempt-then {P} e f k w b h failed answered =
      go (next_fault w.faults).0 (next_fault w.faults).1 h
    where
      go :
          (c : Bool) (bs : List Bool)
          → (k (settle c e bs w (f w.now w.db, w.db)).0 (settle c e bs w (f w.now w.db, w.db)).1).0
            ≡ ok b
          → P
      go true bs h = failed _ refl refl h
      go false bs h = answered _ refl refl h

  pub or_raise-then {ℓ} :
      {P : Type ℓ} (o : Option A) (e : E) (k : A → Action E D B) (w : World D) (b : B)
      → ((or_raise o e >>= k) w).0 ≡ ok b
      → ((a : A) → o ≡ some a → (k a w).0 ≡ ok b → P)
      → P
  unfolding ◌>>=◌
  or_raise-then none e k w b h rest = let z : err e ≡ ok b = h in cc
  or_raise-then (some a) e k w b h rest = rest a refl h

module _ {E D : Type 0} where
  pub require-last : (b : Bool) (e : E) (w : World D) → (require b e w).0 ≡ ok tt → b ≡ true
  unfolding ◌>>=◌
  require-last true e w h = refl
  require-last false e w h = let z : err e ≡ ok tt = h in absurd cc

  pub pure-then : {A : Type 0} (a b : A) (w : World D) → (pure {E = E} a w).0 ≡ ok b → a ≡ b
  unfolding ◌>>=◌
  pure-then a b w h = let z : ok a ≡ ok b = h in cc

  pub or_raise-last :
      {A : Type 0} (o : Option A) (e : E) (w : World D) (a : A)
      → (or_raise o e w).0 ≡ ok a
      → o ≡ some a
  unfolding ◌>>=◌
  or_raise-last none e w a h = let z : err e ≡ ok a = h in cc
  or_raise-last (some b) e w a h = let z : ok b ≡ ok a = h in cc

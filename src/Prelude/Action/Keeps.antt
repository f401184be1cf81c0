-- ===== src/Prelude/Action/Keeps.antt =====
-- Properties of the state that an action keeps, whatever fails in it.
use mathlib.Core.Path.{◌≡◌, refl}
use mathlib.Core.Bool.{Bool, true, false}
use mathlib.Core.Option.{Option, none, some}
use mathlib.Core.List.{List}
use Prim.Native.Nat.{ℕ}
use bytevault.Prelude.Tests.{if◌then◌else◌}
use bytevault.Prelude.Action.{
  World, Result, ok, err, Action, pure, raise, gets, modify, query, attempt, ignore, or_raise,
  require, effect, when, continue, next_fault, settle, report, ◌>>=◌, ◌>>◌,
}

-- From a state with one property to a state with another.
pub record Brings {E D A : Type 0} (P Q : D → Type 0) (m : Action E D A) : Type 0 where
  pub at : (w : World D) → P w.db → Q (m w).1.db

abbrev pub Keeps : {E D A : Type 0} → (D → Type 0) → Action E D A → Type 0
Keeps P m = Brings P P m

abbrev pub Outcome :
    {E D A : Type 0} → (D → Type 0) → (A → D → Type 0) → Result E A × World D → Type 0
Outcome P R (ok a, w) = R a w.db
Outcome P R (err e, w) = P w.db

-- An action that answers with something known of the state, or fails and keeps `Q`.
pub record Finds {E D A : Type 0} (P Q : D → Type 0) (R : A → D → Type 0) (m : Action E D A)
    : Type 0 where
  pub at : (w : World D) → P w.db → Outcome Q R (m w)

module _ {E D A : Type 0} {P : D → Type 0} where
  pub pure-Keeps : (a : A) → Keeps P (pure {E = E} a)
  unfolding ◌>>=◌
  pure-Keeps a = record { at = λ w h. h }

  pub raise-Keeps : (e : E) → Keeps P (raise {A = A} e)
  unfolding ◌>>=◌
  raise-Keeps e = record { at = λ w h. h }

  pub or_raise-Keeps : (o : Option A) (e : E) → Keeps P (or_raise o e)
  unfolding ◌>>=◌
  or_raise-Keeps none e = record { at = λ w h. h }
  or_raise-Keeps (some a) e = record { at = λ w h. h }

  pub query-Keeps :
      (e : E) (f : ℕ → D → A × D) → ((n : ℕ) (d : D) → P d → P (f n d).1) → Keeps P (query e f)
  unfolding ◌>>=◌
  query-Keeps e f h = record {
    at = λ w p. go (next_fault w.faults).0 (next_fault w.faults).1 w p (h w.now w.db p);
  }
    where
      go :
          (b : Bool) (bs : List Bool) (w : World D)
          → P w.db
          → P (f w.now w.db).1
          → P (settle b e bs w (f w.now w.db)).1.db
      go true bs w p q = p
      go false bs w p q = q

  pub read-Keeps : (e : E) (f : ℕ → D → A) → Keeps P (query e (λ n d. (f n d, d)))
  read-Keeps e f = query-Keeps e _ (λ n d h. h)

  pub read-Finds :
      {R : A → D → Type 0} (e : E) (f : ℕ → D → A)
      → ((n : ℕ) (d : D) → P d → R (f n d) d)
      → Finds P P R (query e (λ n d. (f n d, d)))
  unfolding ◌>>=◌
  read-Finds {R} e f h = record {
    at = λ w p. go (next_fault w.faults).0 (next_fault w.faults).1 w p (h w.now w.db p);
  }
    where
      go :
          (b : Bool) (bs : List Bool) (w : World D)
          → P w.db
          → R (f w.now w.db) w.db
          → Outcome P R (settle b e bs w (f w.now w.db, w.db))
      go true bs w p q = p
      go false bs w p q = q

  pub modify-Keeps :
      (f : ℕ → D → A × D) → ((n : ℕ) (d : D) → P d → P (f n d).1) → Keeps P (modify {E = E} f)
  unfolding ◌>>=◌
  modify-Keeps f h = record { at = λ w p. h w.now w.db p }

  pub gets-Keeps : (f : ℕ → D → A) → Keeps P (gets {E = E} f)
  unfolding ◌>>=◌
  gets-Keeps f = record { at = λ w p. p }

  pub attempt-Keeps : {E' : Type 0} (m : Action E D A) → Keeps P m → Keeps P (attempt {E' = E'} m)
  unfolding ◌>>=◌
  attempt-Keeps m h = record { at = h.at }

  pub ignore-Keeps : {E' : Type 0} (m : Action E D A) → Keeps P m → Keeps P (ignore {E' = E'} m)
  unfolding ◌>>=◌
  ignore-Keeps m h = record { at = h.at }

  pub if-Keeps :
      (b : Bool) (m n : Action E D A) → Keeps P m → Keeps P n → Keeps P (if b then m else n)
  if-Keeps true m n hm hn = hm
  if-Keeps false m n hm hn = hn

module _ {E D A B : Type 0} {P : D → Type 0} where
  pub option-Keeps :
      (o : Option A) (m : Action E D B) (k : A → Action E D B)
      → Keeps P m
      → ((a : A) → Keeps P (k a))
      → Keeps P (elim o [ none ↦ m | some a ↦ k a ])
  option-Keeps none m k hm hk = hm
  option-Keeps (some a) m k hm hk = hk a

module _ {E D : Type 0} {P : D → Type 0} where
  pub require-Keeps : (b : Bool) (e : E) → Keeps P (require b e)
  unfolding ◌>>=◌
  require-Keeps true e = record { at = λ w h. h }
  require-Keeps false e = record { at = λ w h. h }

  pub when-Keeps : (b : Bool) (m : Action E D Unit) → Keeps P m → Keeps P (when b m)
  unfolding ◌>>=◌
  when-Keeps true m h = record { at = h.at }
  when-Keeps false m h = record { at = λ w k. k }

module _ {E D : Type 0} {P Q : D → Type 0} where
  pub effect-Brings :
      (e : E) (f : ℕ → D → D) → ((n : ℕ) (d : D) → P d → Q (f n d)) → Brings P Q (effect e f)
  unfolding ◌>>=◌
  effect-Brings e f h = record {
    at = λ w p. go (next_fault w.faults).0 (next_fault w.faults).1 w (h w.now w.db p);
  }
    where
      go :
          (b : Bool) (bs : List Bool) (w : World D)
          → Q (f w.now w.db)
          → Q (report b e (record w { faults = bs; db = f w.now w.db })).1.db
      go true bs w q = q
      go false bs w q = q

module _ {E D : Type 0} {P : D → Type 0} where
  pub effect-Keeps :
      (e : E) (f : ℕ → D → D) → ((n : ℕ) (d : D) → P d → P (f n d)) → Keeps P (effect e f)
  effect-Keeps e f h = effect-Brings e f h

module _ {E D A B : Type 0} {P : D → Type 0} where
  pub bind-Keeps :
      (m : Action E D A) (f : A → Action E D B)
      → Keeps P m
      → ((a : A) → Keeps P (f a))
      → Keeps P (m >>= f)
  unfolding ◌>>=◌
  bind-Keeps m f hm hf = record { at = λ w p. go (m w) (hm.at w p) }
    where
      go : (r : Result E A × World D) → P r.1.db → P (continue r.0 f r.1).1.db
      go (ok a, w) p = (hf a).at w p
      go (err e, w) p = p

  pub bind-Finds :
      {R : A → D → Type 0} (m : Action E D A) (f : A → Action E D B)
      → Finds P P R m
      → ((a : A) → Brings (R a) P (f a))
      → Keeps P (m >>= f)
  unfolding ◌>>=◌
  bind-Finds {R} m f hm hf = record { at = λ w p. go (m w) (hm.at w p) }
    where
      go : (r : Result E A × World D) → Outcome P R r → P (continue r.0 f r.1).1.db
      go (ok a, w) p = (hf a).at w p
      go (err e, w) p = p

module _ {E D A B : Type 0} {P Q : D → Type 0} where
  pub then-Finds :
      {R : A → D → Type 0} {S : B → D → Type 0} (m : Action E D A) (f : A → Action E D B)
      → Finds P Q R m
      → ((a : A) → Finds (R a) Q S (f a))
      → Finds P Q S (m >>= f)
  unfolding ◌>>=◌
  then-Finds {R} {S} m f hm hf = record { at = λ w p. go (m w) (hm.at w p) }
    where
      go : (r : Result E A × World D) → Outcome Q R r → Outcome Q S (continue r.0 f r.1)
      go (ok a, w) p = (hf a).at w p
      go (err e, w) p = p

module _ {E D A : Type 0} {P Q : D → Type 0} {R : A → D → Type 0} where
  pub require-Finds :
      (b : Bool) (e : E) (a : A)
      → (b ≡ true → (d : D) → P d → R a d)
      → ((d : D) → P d → Q d)
      → Finds P Q R (require b e >> pure a)
  unfolding ◌>>=◌
  require-Finds true e a yes_ no_ = record { at = λ w p. yes_ refl w.db p }
  require-Finds false e a yes_ no_ = record { at = λ w p. no_ w.db p }

module _ {E D A : Type 0} {P Q : D → Type 0} where
  pub Keeps-Finds : (m : Action E D A) → ((d : D) → P d → Q d) → Keeps P m → Finds P Q (λ a. P) m
  Keeps-Finds m sub h = record { at = λ w p. go (m w) (h.at w p) }
    where
      go : (r : Result E A × World D) → P r.1.db → Outcome Q (λ a. P) r
      go (ok a, w) p = p
      go (err e, w) p = sub w.db p

module _ {E D A : Type 0} {P Q : D → Type 0} {R : A → D → Type 0} where
  pub query-Finds :
      (e : E) (f : ℕ → D → A × D)
      → ((d : D) → P d → Q d)
      → ((n : ℕ) (d : D) → P d → R (f n d).0 (f n d).1)
      → Finds P Q R (query e f)
  unfolding ◌>>=◌
  query-Finds e f sub h = record {
    at = λ w p. go (next_fault w.faults).0 (next_fault w.faults).1 w p (h w.now w.db p);
  }
    where
      go :
          (b : Bool) (bs : List Bool) (w : World D)
          → P w.db
          → R (f w.now w.db).0 (f w.now w.db).1
          → Outcome Q R (settle b e bs w (f w.now w.db))
      go true bs w p q = sub w.db p
      go false bs w p q = q

module _ {E E' D A : Type 0} {P Q : D → Type 0} where
  -- What is attempted always answers.
  pub attempt-Finds : (m : Action E D A) → Keeps P m → Finds P Q (λ r. P) (attempt {E' = E'} m)
  unfolding ◌>>=◌
  attempt-Finds m h = record { at = h.at }

module _ {E D A : Type 0} {P Q : D → Type 0} {R : A → D → Type 0} where
  pub pure-Finds : (a : A) → ((d : D) → P d → R a d) → Finds P Q R (pure {E = E} a)
  unfolding ◌>>=◌
  pure-Finds a h = record { at = λ w p. h w.db p }

  pub raise-Finds : (e : E) → ((d : D) → P d → Q d) → Finds P Q R (raise e)
  unfolding ◌>>=◌
  raise-Finds e h = record { at = λ w p. h w.db p }

module _ {E D A : Type 0} where
  -- Less is known at the end and more is known at the start.
  pub weaken-Brings :
      {P P' Q Q' : D → Type 0} (m : Action E D A)
      → ((d : D) → P' d → P d)
      → ((d : D) → Q d → Q' d)
      → Brings P Q m
      → Brings P' Q' m
  weaken-Brings m before after h = record { at = λ w p. after _ (h.at w (before _ p)) }

pub ruleset keeps_rules = (
  pure-Keeps, raise-Keeps, or_raise-Keeps, read-Keeps, gets-Keeps, attempt-Keeps, ignore-Keeps,
  if-Keeps, require-Keeps, when-Keeps, bind-Keeps,
)

-- ===== src/Prelude/Action/Settles.antt =====
-- What is known of the state after an action, by the error or the answer that it returns.
use bytevault.Prelude.Action.{
  World, Result, ok, err, Action, effect, continue, next_fault, report, ◌>>=◌,
}
use bytevault.Prelude.Action.Keeps.{Finds, Outcome}
use mathlib.Core.Bool.{Bool, true, false}
use mathlib.Core.List.{List}
use Prim.Native.Nat.{ℕ}

abbrev pub Ending :
    {E D A : Type 0} → (E → D → Type 0) → (A → D → Type 0) → Result E A × World D → Type 0
Ending Q R (ok a, w) = R a w.db
Ending Q R (err e, w) = Q e w.db

-- An action that answers with `R`, or fails with `Q`, which may depend on the error.
pub record Settles {E D A : Type 0} (P : D → Type 0) (Q : E → D → Type 0) (R : A → D → Type 0)
    (m : Action E D A) : Type 0 where
  pub at : (w : World D) → P w.db → Ending Q R (m w)

module _ {E D A : Type 0} {P : D → Type 0} {Q : E → D → Type 0} {R : A → D → Type 0} where
  -- The error does not matter.
  pub Finds-Settles :
      {N : D → Type 0} (m : Action E D A)
      → ((e : E) (d : D) → N d → Q e d)
      → Finds P N R m
      → Settles P Q R m
  Finds-Settles {N} m sub h = record { at = λ w p. go (m w) (h.at w p) }
    where
      go : (r : Result E A × World D) → Outcome N R r → Ending Q R r
      go (ok a, w) p = p
      go (err e, w) p = sub e w.db p

module _ {E D A B : Type 0} {P : D → Type 0} {Q : E → D → Type 0} where
  pub then-Settles :
      {R : A → D → Type 0} {S : B → D → Type 0} (m : Action E D A) (f : A → Action E D B)
      → Settles P Q R m
      → ((a : A) → Settles (R a) Q S (f a))
      → Settles P Q S (m >>= f)
  unfolding ◌>>=◌
  then-Settles {R} {S} m f hm hf = record { at = λ w p. go (m w) (hm.at w p) }
    where
      go : (r : Result E A × World D) → Ending Q R r → Ending Q S (continue r.0 f r.1)
      go (ok a, w) p = (hf a).at w p
      go (err e, w) p = p

module _ {E D : Type 0} {P : D → Type 0} {Q : E → D → Type 0} {R : D → Type 0} where
  -- A call that may have had its effect though it fails.
  pub effect-Settles :
      (e : E) (f : ℕ → D → D)
      → ((n : ℕ) (d : D) → P d → R (f n d))
      → ((d : D) → R d → Q e d)
      → Settles P Q (λ x. R) (effect e f)
  unfolding ◌>>=◌
  effect-Settles e f h failed = record {
    at = λ w p. go (next_fault w.faults).0 (next_fault w.faults).1 w (h w.now w.db p);
  }
    where
      go :
          (b : Bool) (bs : List Bool) (w : World D)
          → R (f w.now w.db)
          → Ending Q (λ x. R) (report b e (record w { faults = bs; db = f w.now w.db }))
      go true bs w q = failed _ q
      go false bs w q = q

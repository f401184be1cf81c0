-- ===== src/Prelude/Action/Calm.antt =====
-- Properties of the state that an action keeps when nothing fails.
use mathlib.Core.Path.{◌≡◌, refl}
use mathlib.Core.Bool.{Bool, true, false}
use mathlib.Core.Option.{Option, none, some}
use mathlib.Core.List.{[]}
use Prim.Native.Nat.{ℕ}
use bytevault.Prelude.Tests.{if◌then◌else◌}
use bytevault.Prelude.Action.{
  World, Result, ok, err, Action, pure, raise, gets, query, attempt, ignore, or_raise, require,
  when, continue, ◌>>=◌,
}

abbrev pub calm {ℓ} : {D : Type ℓ} → ℕ → D → World D
calm now d = record { now = now; faults = []; db = d }

abbrev pub Quiet : {D : Type 0} → (D → Type 0) → World D → Type 0
Quiet P w = (w.faults ≡ []) × P w.db

-- From a world in which nothing fails and `P` holds to another.
pub record IsCalm {E D A : Type 0} (P : D → Type 0) (m : Action E D A) : Type 0 where
  pub at : (w : World D) → Quiet P w → Quiet P (m w).1

module _ {E D A : Type 0} {P : D → Type 0} where
  pub pure-IsCalm : (a : A) → IsCalm P (pure {E = E} {D = D} a)
  unfolding ◌>>=◌
  pure-IsCalm a = record { at = λ w h. h }

  pub raise-IsCalm : (e : E) → IsCalm P (raise {D = D} {A = A} e)
  unfolding ◌>>=◌
  raise-IsCalm e = record { at = λ w h. h }

  pub gets-IsCalm : (f : ℕ → D → A) → IsCalm P (gets {E = E} f)
  unfolding ◌>>=◌
  gets-IsCalm f = record { at = λ w h. h }

  pub query-IsCalm :
      (e : E) (f : ℕ → D → A × D) → ((n : ℕ) (d : D) → P d → P (f n d).1) → IsCalm P (query e f)
  unfolding ◌>>=◌
  query-IsCalm e f k = record { at = λ w h. rw h.0 (refl, k w.now w.db h.1) }

  pub read-IsCalm : (e : E) (f : ℕ → D → A) → IsCalm P (query e (λ n d. (f n d, d)))
  read-IsCalm e f = query-IsCalm e _ (λ n d h. h)

  pub or_raise-IsCalm : (o : Option A) (e : E) → IsCalm P (or_raise {D = D} o e)
  unfolding ◌>>=◌
  or_raise-IsCalm none e = record { at = λ w h. h }
  or_raise-IsCalm (some a) e = record { at = λ w h. h }

  pub attempt-IsCalm :
      {E' : Type 0} (m : Action E D A) → IsCalm P m → IsCalm P (attempt {E' = E'} m)
  unfolding ◌>>=◌
  attempt-IsCalm m h = record { at = h.at }

  pub ignore-IsCalm : {E' : Type 0} (m : Action E D A) → IsCalm P m → IsCalm P (ignore {E' = E'} m)
  unfolding ◌>>=◌
  ignore-IsCalm m h = record { at = h.at }

  pub if-IsCalm :
      (b : Bool) (m n : Action E D A) → IsCalm P m → IsCalm P n → IsCalm P (if b then m else n)
  if-IsCalm true m n hm hn = hm
  if-IsCalm false m n hm hn = hn

module _ {E D : Type 0} {P : D → Type 0} where
  pub require-IsCalm : (b : Bool) (e : E) → IsCalm P (require {D = D} b e)
  unfolding ◌>>=◌
  require-IsCalm true e = record { at = λ w h. h }
  require-IsCalm false e = record { at = λ w h. h }

  pub when-IsCalm : (b : Bool) (m : Action E D Unit) → IsCalm P m → IsCalm P (when b m)
  unfolding ◌>>=◌
  when-IsCalm true m hm = hm
  when-IsCalm false m hm = record { at = λ w h. h }

module _ {E D A B : Type 0} {P : D → Type 0} where
  pub bind-IsCalm :
      (m : Action E D A) (f : A → Action E D B)
      → IsCalm P m
      → ((a : A) → IsCalm P (f a))
      → IsCalm P (m >>= f)
  unfolding ◌>>=◌
  bind-IsCalm m f hm hf = record { at = λ w h. go (m w) (hm.at w h) }
    where
      go : (r : Result E A × World D) → Quiet P r.1 → Quiet P (continue r.0 f r.1).1
      go (ok a, w) h = (hf a).at w h
      go (err e, w) h = h

pub ruleset calm_rules = (
  pure-IsCalm, raise-IsCalm, gets-IsCalm, read-IsCalm, or_raise-IsCalm, attempt-IsCalm,
  ignore-IsCalm, if-IsCalm, require-IsCalm, when-IsCalm, bind-IsCalm,
)

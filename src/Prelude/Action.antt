-- ===== src/Prelude/Action.antt =====
-- Handlers: what a Go method does to the state and what it returns. A `World` holds the state `D`
-- of a component, the time that `time.Now()` and SQL's `NOW()` read, and a schedule that says of
-- each query or external call to come whether it fails; past its end no call fails. What a method
-- wrote before it returned an error stays written.
pub mod Leads
pub mod Answers
pub mod Keeps
pub mod Settles
pub mod Calm
use Prim.Native.Nat.{ℕ}
use mathlib.Core.Bool.{Bool, true, false}
use mathlib.Core.Option.{Option, none, some}
use mathlib.Core.List.{List, [], ◌∷◌}

pub data Result {ℓ κ} (E : Type ℓ) (A : Type κ) : Type (ℓ ⊔ κ) where
  ok : A → Result E A
  err : E → Result E A

pub record World {ℓ} (D : Type ℓ) : Type ℓ where
  pub now : ℕ
  pub faults : List Bool
  pub db : D

abbrev pub Action : Type 0 → Type 0 → Type 0 → Type 0
Action E D A = World D → Result E A × World D

-- Whether the next call fails, and the schedule of the calls after it.
abbrev pub next_fault : List Bool → Bool × List Bool
next_fault [] = (false, [])
next_fault (b ∷ bs) = (b, bs)

module _ {E D A : Type 0} where
  unfoldable pub pure : A → Action E D A
  pure a w = (ok a, w)

  unfoldable pub raise : E → Action E D A
  raise e w = (err e, w)

  -- A read of the clock or of memory.
  unfoldable pub gets : (ℕ → D → A) → Action E D A
  gets f w = (ok (f w.now w.db), w)

  -- A write to memory.
  unfoldable pub modify : (ℕ → D → A × D) → Action E D A
  modify f w = let (a, d) = f w.now w.db in (ok a, record w { db = d })

  abbrev pub settle : Bool → E → List Bool → World D → A × D → Result E A × World D
  settle true e bs w r = (err e, record w { faults = bs })
  settle false e bs w r = (ok r.0, record w { faults = bs; db = r.1 })

  -- A query: it fails with `e` and changes nothing, or does what its text says.
  unfoldable pub query : E → (ℕ → D → A × D) → Action E D A
  query e f w = let (b, bs) = next_fault w.faults in settle b e bs w (f w.now w.db)

  -- `v, err := call()`: the caller looks at the error.
  unfoldable pub attempt : {E' : Type 0} → Action E D A → Action E' D (Result E A)
  attempt m w = let (r, w') = m w in (ok r, w')

  -- `_ = call()`
  unfoldable pub ignore : {E' : Type 0} → Action E D A → Action E' D Unit
  ignore m w = let (r, w') = m w in (ok tt, w')

  -- `if v == nil { return e }`
  unfoldable pub or_raise : Option A → E → Action E D A
  or_raise none e w = (err e, w)
  or_raise (some a) e w = (ok a, w)

module _ {E D : Type 0} where
  -- `if !b { return e }`
  unfoldable pub require : Bool → E → Action E D Unit
  require true e w = (ok tt, w)
  require false e w = (err e, w)

  abbrev pub report : Bool → E → Action E D Unit
  report true e w = (err e, w)
  report false e w = (ok tt, w)

  -- An external call that is made, and may report failure whether or not it had its effect.
  unfoldable pub effect : E → (ℕ → D → D) → Action E D Unit
  effect e f w =
      let (b, bs) = next_fault w.faults in
      let w' : World D = record w { faults = bs; db = f w.now w.db } in report b e w'

  -- `if b { m }`
  unfoldable pub when : Bool → Action E D Unit → Action E D Unit
  when true m w = m w
  when false m w = (ok tt, w)

module _ {E D A B : Type 0} where
  abbrev pub continue : Result E A → (A → Action E D B) → Action E D B
  continue (ok a) f w = f a w
  continue (err e) f w = (err e, w)

  -- Opening this opens all that an action is built from.
  infixl 5 ◌>>=◌
  unfoldable pub ◌>>=◌ : Action E D A → (A → Action E D B) → Action E D B
  unfolding pure raise gets modify query attempt ignore or_raise require effect when
  ◌>>=◌ m f w = let (r, w') = m w in continue r f w'

module _ {E D B : Type 0} where
  infixl 5 ◌>>◌
  abbrev pub ◌>>◌ : Action E D Unit → Action E D B → Action E D B
  m >> k = m >>= λ _. k

-- ===== src/Prelude/Action/Leads.antt =====
-- What an action does to the state, whatever it returns: from a state with `P` it ends in one with
-- `Q`. `P` is what is known until the first write that matters, and `Q` what is to hold after it.
use mathlib.Core.Path.{◌≡◌, refl}
use mathlib.Core.Bool.{Bool, true, false}
use bytevault.Prelude.Tests.{if◌then◌else◌}
use bytevault.Prelude.Action.{
  World, Action, Result, ok, err, pure, raise, attempt, ignore, require, when, continue, ◌>>=◌,
  ◌>>◌,
}

pub record Leads {E D A : Type 0} (P Q : World D → Type 0) (m : Action E D A) : Type 0 where
  pub at : (w : World D) → P w → Q (m w).1

module _ {E D A : Type 0} {P Q : World D → Type 0} (sub : (w : World D) → P w → Q w) where
  pub Leads-pure : (a : A) → Leads P Q (pure {E = E} a)
  unfolding ◌>>=◌
  Leads-pure a = record { at = sub }

  pub Leads-raise : (e : E) → Leads P Q (raise {A = A} e)
  unfolding ◌>>=◌
  Leads-raise e = record { at = sub }

module _ {E D A : Type 0} {P Q : World D → Type 0} where
  pub Leads-attempt :
      {E' : Type 0} (m : Action E D A) → Leads P Q m → Leads P Q (attempt {E' = E'} m)
  unfolding ◌>>=◌
  Leads-attempt m h = record { at = h.at }

  pub Leads-ignore : {E' : Type 0} (m : Action E D A) → Leads P Q m → Leads P Q (ignore {E' = E'} m)
  unfolding ◌>>=◌
  Leads-ignore m h = record { at = h.at }

module _ {E D A B : Type 0} {P Q : World D → Type 0} (sub : (w : World D) → P w → Q w) where
  -- The first action keeps what is known; the rest does the work.
  pub Leads-bind :
      (m : Action E D A) (f : A → Action E D B)
      → Leads P P m
      → ((a : A) → Leads P Q (f a))
      → Leads P Q (m >>= f)
  unfolding ◌>>=◌
  Leads-bind m f hm hf = record { at = λ w p. go (m w) (hm.at w p) }
    where
      go : (r : Result E A × World D) → P r.1 → Q (continue r.0 f r.1).1
      go (ok a, w) p = (hf a).at w p
      go (err e, w) p = sub w p

  -- The rest may use what the result of a test or of a read says.
  pub Leads-bind_result :
      (K : A → Type 0) (m : Action E D A) (f : A → Action E D B)
      → Leads P P m
      → ((w : World D) (a : A) → P w → (m w).0 ≡ ok a → K a)
      → ((a : A) → K a → Leads P Q (f a))
      → Leads P Q (m >>= f)
  unfolding ◌>>=◌
  Leads-bind_result K m f hm known hf = record {
    at = λ w p. go (m w) (hm.at w p) (λ a e. known w a p e);
  }
    where
      go :
          (r : Result E A × World D)
          → P r.1
          → ((a : A) → r.0 ≡ ok a → K a)
          → Q (continue r.0 f r.1).1
      go (ok a, w) p k = (hf a (k a refl)).at w p
      go (err e, w) p k = sub w p

-- The first action does the work; the rest keeps it.
module _ {E D A B : Type 0} {P Q : World D → Type 0} where
  pub Leads-then :
      (m : Action E D A) (f : A → Action E D B)
      → Leads P Q m
      → ((a : A) → Leads Q Q (f a))
      → Leads P Q (m >>= f)
  unfolding ◌>>=◌
  Leads-then m f hm hf = record { at = λ w p. go (m w) (hm.at w p) }
    where
      go : (r : Result E A × World D) → Q r.1 → Q (continue r.0 f r.1).1
      go (ok a, w) p = (hf a).at w p
      go (err e, w) p = p

module _ {E D B : Type 0} {P Q : World D → Type 0} (sub : (w : World D) → P w → Q w) where
  pub Leads-require :
      (b : Bool) (e : E) (m : Action E D B)
      → (b ≡ true → Leads P Q m)
      → Leads P Q (require b e >> m)
  unfolding ◌>>=◌
  Leads-require true e m h = record { at = (h refl).at }
  Leads-require false e m h = record { at = sub }

  pub Leads-if :
      (b : Bool) (m n : Action E D B)
      → (b ≡ true → Leads P Q m)
      → (b ≡ false → Leads P Q n)
      → Leads P Q (if b then m else n)
  unfolding ◌>>=◌
  Leads-if true m n hm hn = hm refl
  Leads-if false m n hm hn = hn refl

module _ {E D : Type 0} {P Q : World D → Type 0} (sub : (w : World D) → P w → Q w) where
  pub Leads-when :
      (b : Bool) (m : Action E D Unit) → (b ≡ true → Leads P Q m) → Leads P Q (when b m)
  unfolding ◌>>=◌
  Leads-when true m h = record { at = (h refl).at }
  Leads-when false m h = record { at = sub }

-- With what is known of the value that is returned: `R` of it and the final state, or `Q` on failure.
abbrev pub After :
    {E D A : Type 0} → (World D → Type 0) → (A → World D → Type 0) → Result E A × World D → Type 0
After Q R (ok a, w) = R a w
After Q R (err e, w) = Q w

pub record Ends {E D A : Type 0} (P Q : World D → Type 0) (R : A → World D → Type 0)
    (m : Action E D A) : Type 0 where
  pub at : (w : World D) → P w → After Q R (m w)

module _ {E D A B : Type 0} {P Q : World D → Type 0} {R : A → World D → Type 0} where
  pub Ends-bind :
      {S : B → World D → Type 0} (m : Action E D A) (f : A → Action E D B)
      → Ends P Q R m
      → ((a : A) → Ends (R a) Q S (f a))
      → Ends P Q S (m >>= f)
  unfolding ◌>>=◌
  Ends-bind {S} m f hm hf = record { at = λ w p. go (m w) (hm.at w p) }
    where
      go : (r : Result E A × World D) → After Q R r → After Q S (continue r.0 f r.1)
      go (ok a, w) p = (hf a).at w p
      go (err e, w) p = p

  pub Leads-Ends :
      (m : Action E D A) (f : A → Action E D B)
      → Ends P Q R m
      → ((a : A) → Leads (R a) Q (f a))
      → Leads P Q (m >>= f)
  unfolding ◌>>=◌
  Leads-Ends m f hm hf = record { at = λ w p. go (m w) (hm.at w p) }
    where
      go : (r : Result E A × World D) → After Q R r → Q (continue r.0 f r.1).1
      go (ok a, w) p = (hf a).at w p
      go (err e, w) p = p

module _ {E D A : Type 0} {P Q : World D → Type 0} where
  pub Ends-Leads :
      (m : Action E D A) → ((w : World D) → P w → Q w) → Leads P P m → Ends P Q (λ a. P) m
  Ends-Leads m sub h = record { at = λ w p. go (m w) (h.at w p) }
    where
      go : (r : Result E A × World D) → P r.1 → After Q (λ a. P) r
      go (ok a, w) p = p
      go (err e, w) p = sub w p

module _ {E D A : Type 0} {P Q : World D → Type 0} {R : A → World D → Type 0} where
  pub Ends-require :
      (b : Bool) (e : E) (m : Action E D A)
      → ((w : World D) → P w → Q w)
      → (b ≡ true → Ends P Q R m)
      → Ends P Q R (require b e >> m)
  unfolding ◌>>=◌
  Ends-require true e m sub h = record { at = (h refl).at }
  Ends-require false e m sub h = record { at = sub }

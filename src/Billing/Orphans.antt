-- ===== src/Billing/Orphans.antt =====
-- What `Subscribe` leaves with Razorpay.
use bytevault.Prelude.{
  ℕ, Bool, true, false, not, ◌&&◌, ◌||◌, Option, none, some, List, [], ◌∷◌, ◌≡◌, refl, ◌==◌,
  ==_refl, if◌then◌else◌, Bool-cases, ◌⊎◌, inl, inr,
}
use bytevault.Prelude.Action.{attempt, World, Result, ok, err, ◌>>=◌}
use bytevault.Prelude.Action.Keeps.{
  Brings, Keeps, Finds, Keeps-Finds, then-Finds, attempt-Finds, bind-Keeps, query-Keeps, read-Keeps,
  effect-Brings, effect-Keeps, require-Keeps, or_raise-Keeps, attempt-Keeps, option-Keeps,
  when-Keeps, keeps_rules,
}
use bytevault.Prelude.Action.Settles.{Ending, Settles, Finds-Settles, then-Settles, effect-Settles}
use bytevault.Billing.{
  Status, Subscription, RazorpayCall, create_subscription, update_subscription, cancel_subscription,
  Db, Env, Error, creation_failed, Service,
}
use bytevault.Billing.Repository.{
  create, find_by_user_id, update_subscription as update_row, update_status, set_cancellation,
  find_package,
}
use bytevault.Billing.Service.{
  razorpay, on_razorpay, clear_unpaid, create_on_razorpay, or_cancel, subscribe,
}

-- Whether a subscription was made with Razorpay, and not cancelled at once since; the calls are the newest
-- first.
unfoldable pub is_open : ℕ → List RazorpayCall → Bool
is_open id [] = false
is_open id (create_subscription i plan ∷ cs) = i == id || is_open id cs
is_open id (update_subscription i plan at ∷ cs) = is_open id cs
is_open id (cancel_subscription i at_end ∷ cs) =
    let rest = is_open id cs in if i == id && not at_end then false else rest

module _ (env : Env) where
  abbrev pub Closed : Db → Type 0
  Closed d = is_open env.new_subscription_id d.calls ≡ false

  abbrev pub Open : Db → Type 0
  Open d = is_open env.new_subscription_id d.calls ≡ true

  cancel-Keeps : (id : ℕ) (b : Bool) → Keeps Closed (razorpay (cancel_subscription id b))
  unfolding razorpay is_open
  cancel-Keeps id b = effect-Keeps _ _ (λ n d h.
      elim (Bool-cases (id == env.new_subscription_id && not b)) [
        | inl e ↦ rw e refl
        | inr e ↦ rw e h
      ])

  row-Keeps : (id : ℕ) (f : Subscription → Subscription) → Keeps Closed (update_row id f)
  unfolding update_row
  row-Keeps id f = bind-Keeps _ _ (query-Keeps _ _ (λ n d h. h)) (λ row. search keeps_rules)

  update_status-Keeps :
      (id : ℕ) (status : Status) (start end payment : Option ℕ)
      → Keeps Closed (update_status id status start end payment)
  unfolding update_status
  update_status-Keeps id status start end payment = row-Keeps id _

  set_cancellation-Keeps :
      (id : ℕ) (b : Bool) (at : Option ℕ) → Keeps Closed (set_cancellation id b at)
  unfolding set_cancellation
  set_cancellation-Keeps id b at = row-Keeps id _

  on_razorpay-Keeps :
      (s : Subscription) (k : ℕ → Service Unit)
      → ((id : ℕ) → Keeps Closed (k id))
      → Keeps Closed (on_razorpay env s k)
  unfolding on_razorpay
  on_razorpay-Keeps s k h =
      option-Keeps s.razorpay_subscription_id _ _ (search keeps_rules) (λ id. when-Keeps _ _ (h id))

  clear_unpaid-Keeps : (o : Option Subscription) → Keeps Closed (clear_unpaid env o)
  unfolding clear_unpaid
  clear_unpaid-Keeps none = search keeps_rules
  clear_unpaid-Keeps (some s) =
      search
        (keeps_rules, on_razorpay-Keeps, cancel-Keeps, update_status-Keeps, set_cancellation-Keeps)
        depth 14

  find_by_user_id-Keeps : (user : ℕ) → Keeps Closed (find_by_user_id user)
  unfolding find_by_user_id
  find_by_user_id-Keeps user = read-Keeps _ _

  find_package-Keeps : (id : ℕ) → Keeps Closed (find_package id)
  unfolding find_package
  find_package-Keeps id = search keeps_rules

  create-Keeps : (s : Subscription) → Keeps Open (create s)
  unfolding create
  create-Keeps s = query-Keeps _ _ (λ n d h. h)

  cancel-closes : Brings Open Closed (razorpay (cancel_subscription env.new_subscription_id false))
  unfolding razorpay is_open
  cancel-closes = effect-Brings _ _ (λ n d h. rw (==_refl env.new_subscription_id) refl)

  or_cancel-Finds :
      (r : Result Error Subscription) → Finds Open Closed (λ s. Open) (or_cancel env r)
  unfolding or_cancel ◌>>=◌
  or_cancel-Finds (ok s) = record { at = λ w h. h }
  or_cancel-Finds (err e) = record { at = λ w h. cancel-closes.at w h }

  -- Nothing is left with Razorpay, or the creation itself reported a failure.
  abbrev pub Refused : Error → Db → Type 0
  Refused e d = Closed d ⊎ ((e ≡ creation_failed) × Open d)

  create_on_razorpay-Settles :
      (plan : ℕ) → Settles Closed Refused (λ x. Open) (create_on_razorpay env plan)
  unfolding create_on_razorpay is_open
  create_on_razorpay-Settles plan =
      effect-Settles _ _ (λ n d h. rw (==_refl env.new_subscription_id) refl) (λ d h. inr (refl, h))

  early : {A : Type 0} (m : Service A) → Keeps Closed m → Settles Closed Refused (λ a. Closed) m
  early m h = Finds-Settles m (λ e d c. inl c) (Keeps-Finds m (λ d c. c) h)

  record_row-Settles :
      (s : Subscription)
      → Settles Open Refused (λ s. Open) (attempt {E' = Error} (create s) >>= or_cancel env)
  record_row-Settles s =
      Finds-Settles _ (λ e d c. inl c)
        (then-Finds _ _ (attempt-Finds _ (create-Keeps s)) or_cancel-Finds)

  subscribe-Settles :
      (user target : ℕ) → Settles Closed Refused (λ s. Open) (subscribe env user target)
  unfolding subscribe
  subscribe-Settles user target = then-Settles _ _ (early _ (find_by_user_id-Keeps user)) λ o.
      then-Settles _ _ (early _ (clear_unpaid-Keeps o)) λ x.
        then-Settles _ _ (early _ (find_package-Keeps target)) λ p.
          then-Settles _ _ (early _ (require-Keeps _ _)) λ y.
            then-Settles _ _ (early _ (or_raise-Keeps _ _)) λ plan.
              then-Settles _ _ (early _ (require-Keeps _ _)) λ z.
                then-Settles _ _ (early _ (attempt-Keeps _ (read-Keeps _ _))) λ customer.
                  then-Settles _ _ (create_on_razorpay-Settles plan) (λ made. record_row-Settles _)

-- Whatever fails in it, `Subscribe` with a new id of Razorpay answers with that subscription made, or with
-- an error; then it was not made, or its cancellation was asked for, or its creation is what failed.
pub subscribe-Open :
    (env : Env) (user target : ℕ) (w : World Db)
    → is_open env.new_subscription_id w.db.calls ≡ false
    → Ending (Refused env) (λ s. Open env) (subscribe env user target w)
subscribe-Open env user target w h = (subscribe-Settles env user target).at w h

-- ===== src/Billing/Service.antt =====
-- The methods of internal/service/subscription_service.go for users.
use bytevault.Prelude.{
  ℕ, zero, suc, Bool, true, false, not, ◌&&◌, ◌||◌, Option, none, some, ◌∷◌, ltb, ◌==◌,
  if◌then◌else◌, is_some, is_set,
}
use bytevault.Prelude.Text.{bytes}
use bytevault.Prelude.Action.{
  Result, ok, err, pure, raise, gets, query, attempt, ignore, require, or_raise, effect, when,
  ◌>>=◌, ◌>>◌,
}
use bytevault.Billing.{
  Status, created, active, cancelled, Subscription, Package, now_, cycle_end, RazorpayCall,
  create_subscription, update_subscription, cancel_subscription, Error, no_active_subscription,
  active_subscription_exists, free_tier_no_payment, same_plan, invalid_plan_transition,
  no_razorpay_plan, not_configured, bad_signature, not_owner, razorpay_failed, creation_failed,
  no_pending_downgrade, Service, RazorpaySubscription, Env,
}
use bytevault.Billing.Repository.{
  is_active, is_created, create, find_by_id, find_by_user_id, find_by_razorpay_id, update_status,
  set_cancellation, set_pending_downgrade, update_package_id, set_upgraded_from, find_package,
  find_package_by_name, update_storage_limits,
}

-- A call of Razorpay, which may have had its effect though it reports a failure.
unfoldable pub razorpay : RazorpayCall → Service Unit
razorpay c = effect razorpay_failed (λ now d. record d { calls = c ∷ d.calls })

-- `s.razorpayClient != nil && sub.RazorpaySubscriptionID != nil`
unfoldable pub on_razorpay : Env → Subscription → (ℕ → Service Unit) → Service Unit
on_razorpay env s k = elim s.razorpay_subscription_id [
  | none ↦ pure tt
  | some id ↦ when env.configured (k id)
]

abbrev pub limits_of : Package → ℕ × ℕ
limits_of p = (p.storage_limit_bytes, p.max_file_size_bytes)

abbrev pub default_limits : ℕ × ℕ
default_limits = (5368709120, 2147483648)

abbrev pub found_limits : Result Error Package → ℕ × ℕ
found_limits (ok p) = limits_of p
found_limits (err e) = default_limits

-- `freeTierLimits`
unfoldable pub free_tier_limits : Service (ℕ × ℕ)
free_tier_limits = do p ← attempt (find_package_by_name (bytes "free")); pure (found_limits p)

-- A checkout that was not paid is cancelled; any other current subscription stands in the way.
unfoldable pub clear_unpaid : Env → Option Subscription → Service Unit
clear_unpaid env none = pure tt
clear_unpaid env (some s) = do
  require (is_created s.status) active_subscription_exists
  on_razorpay env s (λ id. ignore (razorpay (cancel_subscription id false)))
  now ← gets (λ t d. t)
  ignore (update_status s.id cancelled none none none)
  ignore (set_cancellation s.id false (some now))

abbrev pub customer_of : Result Error (Option ℕ) → Option ℕ
customer_of (ok c) = c
customer_of (err e) = none

abbrev pub new_subscription : ℕ → ℕ → Status → Subscription
new_subscription user target status = record {
  id = 0;
  user_id = user;
  package_id = target;
  razorpay_subscription_id = none;
  razorpay_customer_id = none;
  razorpay_payment_id = none;
  status = status;
  current_period_start = none;
  current_period_end = none;
  cancelled_at = none;
  cancel_at_cycle_end = false;
  pending_package_id = none;
  upgraded_from_id = none;
}

-- A subscription that Razorpay has and the table has not is cancelled.
unfoldable pub or_cancel : Env → Result Error Subscription → Service Subscription
or_cancel env (ok s) = pure s
or_cancel env (err e) = do
  ignore (razorpay (cancel_subscription env.new_subscription_id false))
  raise e

-- A creation that reports failure may have made the subscription, but its id is not known then.
unfoldable pub create_on_razorpay : Env → ℕ → Service Unit
create_on_razorpay env plan =
    effect creation_failed
      λ now d. record d { calls = create_subscription env.new_subscription_id plan ∷ d.calls }

-- `Subscribe`
unfoldable pub subscribe : Env → ℕ → ℕ → Service Subscription
subscribe env user target = do
  current ← find_by_user_id user
  clear_unpaid env current
  p ← find_package target
  require (ltb 0 p.price_paise && is_set p.razorpay_plan_id) free_tier_no_payment
  plan ← or_raise p.razorpay_plan_id free_tier_no_payment
  require env.configured not_configured
  customer ← attempt (query razorpay_failed (λ now d. (env.customer_id, d)))
  create_on_razorpay env plan
  made ← attempt (
      create (record (new_subscription user p.id created) {
        razorpay_subscription_id = some env.new_subscription_id;
        razorpay_customer_id = customer_of customer;
      }))
  or_cancel env made

abbrev pub time_or : ℕ → ℕ → ℕ
time_or zero standard = standard
time_or (suc t) standard = suc t

-- The state, start and end that `Verify` stores: what Razorpay tells, else active from now for a month.
abbrev pub verified : Env → ℕ → Result Error RazorpaySubscription → Status × ℕ × ℕ
verified env now (ok r) = (
  if is_created r.status then active else r.status,
  time_or r.current_start now,
  time_or r.current_end (env.next_month now),
)
verified env now (err e) = (active, now, env.next_month now)

unfoldable pub grant : ℕ → Result Error Package → Service Unit
grant user (ok p) = ignore (update_storage_limits user (limits_of p))
grant user (err e) = pure tt

unfoldable pub activate : Env → ℕ → ℕ → ℕ → Subscription → Service Subscription
activate env user id payment s = do
  told ← attempt (query razorpay_failed (λ now d. (env.told id, d)))
  now ← gets (λ t d. t)
  let (status, start, end) = verified env now told
  update_status s.id status (some start) (some end) (some payment)
  p ← attempt (find_package s.package_id)
  grant user p
  find_by_id s.id

-- `Verify`
unfoldable pub verify : Env → ℕ → ℕ → ℕ → ℕ → Service Subscription
verify env user id payment signature = do
  require env.configured not_configured
  require (env.valid_signature payment id signature) bad_signature
  s ← find_by_razorpay_id id
  require (s.user_id == user) not_owner
  if is_active s.status then pure s else activate env user id payment s

abbrev pub seen : Result Error (Option Subscription) → Option Subscription
seen (ok s) = s
seen (err e) = none

-- `err != nil || currentSub == nil || !currentSub.IsActive()`
unfoldable pub find_active : ℕ → Service Subscription
find_active user = do
  row ← attempt (find_by_user_id user)
  s ← or_raise (seen row) no_active_subscription
  require (is_active s.status) no_active_subscription
  pure s

abbrev pub has_pending_change : Subscription → Bool
has_pending_change s = is_some s.pending_package_id || s.cancel_at_cycle_end

unfoldable pub apply_upgrade : ℕ → Subscription → Package → Package → Service Subscription
apply_upgrade user s before target = do
  update_package_id s.id target.id
  ignore (set_upgraded_from s.id (some before.id))
  when (is_some s.pending_package_id) (ignore (set_pending_downgrade s.id none))
  when s.cancel_at_cycle_end (ignore (set_cancellation s.id false none))
  ignore (update_storage_limits user (limits_of target))
  find_by_id s.id

-- `Upgrade`
unfoldable pub upgrade : Env → ℕ → ℕ → Service Subscription
upgrade env user target_id = do
  s ← find_active user
  before ← find_package s.package_id
  target ← find_package target_id
  require (not (has_pending_change s)) invalid_plan_transition
  require (not (target.id == before.id)) same_plan
  require (ltb before.price_paise target.price_paise) invalid_plan_transition
  require (is_set target.razorpay_plan_id) no_razorpay_plan
  plan ← or_raise target.razorpay_plan_id no_razorpay_plan
  on_razorpay env s (λ id. razorpay (update_subscription id plan now_))
  apply_upgrade user s before target

-- "Downgrading to free tier"
unfoldable pub downgrade_to_free : Env → Subscription → Package → Service Subscription
downgrade_to_free env s target = do
  on_razorpay env s (λ id. ignore (razorpay (cancel_subscription id true)))
  set_cancellation s.id true none
  set_pending_downgrade s.id (some target.id)
  find_by_id s.id

-- "Paid-to-paid downgrade"
unfoldable pub downgrade_paid : Env → Subscription → Package → Service Subscription
downgrade_paid env s target = do
  require (is_set target.razorpay_plan_id) no_razorpay_plan
  plan ← or_raise target.razorpay_plan_id no_razorpay_plan
  on_razorpay env s (λ id. razorpay (update_subscription id plan cycle_end))
  set_pending_downgrade s.id (some target.id)
  find_by_id s.id

-- `Downgrade`
unfoldable pub downgrade : Env → ℕ → ℕ → Service Subscription
downgrade env user target_id = do
  s ← find_active user
  before ← find_package s.package_id
  target ← find_package target_id
  require (not (has_pending_change s)) invalid_plan_transition
  require (not (is_some s.upgraded_from_id)) invalid_plan_transition
  require (not (target.id == before.id)) same_plan
  require (ltb target.price_paise before.price_paise) invalid_plan_transition
  if target.price_paise == 0 then downgrade_to_free env s target else downgrade_paid env s target

-- `Cancel`
unfoldable pub cancel : Env → ℕ → Service Subscription
cancel env user = do
  s ← find_active user
  on_razorpay env s (λ id. ignore (razorpay (cancel_subscription id true)))
  set_cancellation s.id true none
  find_by_id s.id

-- `CancelPendingDowngrade`
unfoldable pub cancel_pending_downgrade : ℕ → Service Subscription
cancel_pending_downgrade user = do
  s ← find_active user
  require (is_some s.pending_package_id) no_pending_downgrade
  set_pending_downgrade s.id none
  when s.cancel_at_cycle_end (ignore (set_cancellation s.id false none))
  find_by_id s.id

abbrev pub time_of : ℕ → Option ℕ
time_of zero = none
time_of (suc t) = some (suc t)

abbrev pub free_subscription : ℕ → Result Error Package → Subscription
free_subscription user (ok p) = new_subscription user p.id active
free_subscription user (err e) = new_subscription user 0 active

unfoldable pub current_or_free : ℕ → Option Subscription → Service Subscription
current_or_free user none = do
  p ← attempt (find_package_by_name (bytes "free"))
  pure (free_subscription user p)
current_or_free user (some s) =
    if is_created s.status
    then (do p ← attempt (find_package_by_name (bytes "free")); pure (free_subscription user p))
    else pure s

-- `GetCurrentSubscription`
unfoldable pub get_current_subscription : ℕ → Service Subscription
get_current_subscription user = do current ← find_by_user_id user; current_or_free user current

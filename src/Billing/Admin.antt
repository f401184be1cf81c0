-- ===== src/Billing/Admin.antt =====
-- The methods of internal/service/subscription_service.go for admins.
use bytevault.Prelude.{ℕ, ◌+◌, ◌*◌, false, Option, none, some, if◌then◌else◌}
use bytevault.Prelude.Action.{pure, gets, query, attempt, ignore, when, ◌>>=◌, ◌>>◌}
use bytevault.Billing.{
  active, cancelled, Subscription, cancel_subscription, razorpay_failed, Service,
  RazorpaySubscription, Env,
}
use bytevault.Billing.Repository.{
  is_active, create, find_by_id, find_by_user_id, update_status, set_cancellation, find_package,
  update_storage_limits,
}
use bytevault.Billing.Service.{
  razorpay, on_razorpay, limits_of, free_tier_limits, new_subscription, grant, time_of,
}

-- `AdminCancel`
unfoldable pub admin_cancel : Env → ℕ → Service Unit
admin_cancel env id = do
  s ← find_by_id id
  on_razorpay env s (λ i. ignore (razorpay (cancel_subscription i false)))
  now ← gets (λ t d. t)
  update_status s.id cancelled none none none
  set_cancellation s.id false (some now)
  free ← free_tier_limits
  update_storage_limits s.user_id free

unfoldable pub cancel_existing : Env → Option Subscription → Service Unit
cancel_existing env none = pure tt
cancel_existing env (some s) = admin_cancel env s.id

abbrev pub day : ℕ
day = 24 * 3_600_000_000_000

-- `AdminAssign`
unfoldable pub admin_assign : Env → ℕ → ℕ → ℕ → Service Subscription
admin_assign env user target days = do
  existing ← find_by_user_id user
  cancel_existing env existing
  p ← find_package target
  now ← gets (λ t d. t)
  s ← create (record (new_subscription user p.id active) {
    current_period_start = some now;
    current_period_end = some (now + days * day);
  })
  ignore (update_storage_limits user (limits_of p))
  pure s

unfoldable pub sync_from : Subscription → RazorpaySubscription → Service Subscription
sync_from s r = do
  update_status s.id r.status (time_of r.current_start) (time_of r.current_end) none
  when (is_active r.status) do p ← attempt (find_package s.package_id); grant s.user_id p
  find_by_id s.id

-- `SyncWithRazorpay`
unfoldable pub sync_with_razorpay : Env → ℕ → Service Subscription
sync_with_razorpay env id = do
  s ← find_by_id id
  elim s.razorpay_subscription_id [
    | none ↦ pure s
    | some i ↦
        if env.configured
        then (do r ← query razorpay_failed (λ now d. (env.told i, d)); sync_from s r)
        else pure s
  ]

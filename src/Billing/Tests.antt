-- ===== src/Billing/Tests.antt =====
-- Runs of the methods on subscriptions, and the theorems on concrete inputs.
use bytevault.Prelude.{ℕ, ◌+◌, true, none, some, [], ◌∷◌, ◌≡◌, refl, All, ◌==◌, if◌then◌else◌}
use bytevault.Prelude.Text.{bytes, same}
use bytevault.Prelude.Table.{find?, update, select}
use bytevault.Prelude.Table.Keys.{Distinct}
use bytevault.Prelude.Action.{ok, err, ◌>>=◌}
use bytevault.Prelude.Action.Calm.{calm}
use bytevault.Prelude.Action.Settles.{Ending}
use bytevault.Billing.{
  active, created, expired, Subscription, Package, Db, Env, invalid_plan_transition,
}
use bytevault.Billing.Repository.{
  find_by_id, find_by_user_id, update_subscription, update_status, set_cancellation,
  set_pending_downgrade, update_package_id, set_upgraded_from, find_package, find_package_by_name,
  update_storage_limits, list_expiring_or_expired, list_pending_downgrades,
}
use bytevault.Billing.Service.{
  new_subscription, razorpay, on_razorpay, free_tier_limits, find_active, apply_upgrade, upgrade,
  downgrade_to_free, downgrade, subscribe,
}
use bytevault.Billing.Scheduler.{
  change_limits, apply_downgrade, apply_pending, apply_all, apply_found, expire_all, expire_found,
  process_scheduled_downgrades,
}
use bytevault.Billing.Webhooks.{is_charged, WebhookEnv, handle_razorpay_webhook}
use bytevault.Billing.Charges.{payment_of, handle-Distinct}
use bytevault.Billing.Transitions.{IsUpgrade, upgrade-IsUpgrade}
use bytevault.Billing.Periods.{IsSettled, process-IsSettled}
use bytevault.Billing.Orphans.{is_open, Open, Refused, subscribe-Open}

abbrev package_of : ℕ → ℕ → Package
package_of id price = record {
  id = id;
  name = if id == 1 then bytes "free" else bytes "paid";
  price_paise = price;
  storage_limit_bytes = 1000 + id;
  max_file_size_bytes = 100 + id;
  razorpay_plan_id = some id;
}

abbrev sample : Db
sample = record {
  subscriptions =
      record (new_subscription 1 2 active) {
        id = 1;
        razorpay_subscription_id = some 40;
        current_period_end = some 500;
      }
      ∷ [];
  next_id = 2;
  packages = package_of 1 0 ∷ package_of 2 100 ∷ package_of 3 200 ∷ [];
  limits = λ u. (0, 0);
  calls = [];
  transactions = [];
  next_invoice = 1;
  processed_events = [];
}

abbrev env0 : Env
env0 = record {
  configured = true;
  new_subscription_id = 50;
  customer_id = none;
  valid_signature = λ p i s. true;
  told = λ i. record { status = created; current_start = 0; current_end = 0 };
  next_month = λ t. t;
}

abbrev first : Db → Subscription
first d = elim d.subscriptions [ [] ↦ new_subscription 0 0 active | s ∷ ss ↦ s ]

upgrade-ok :
    (upgrade env0 1 3 (calm 9 sample)).0 ≡ ok (first (upgrade env0 1 3 (calm 9 sample)).1.db)
unfolding find? update ◌>>=◌ find_by_id find_by_user_id update_subscription set_upgraded_from
    update_package_id find_package update_storage_limits razorpay on_razorpay find_active
    apply_upgrade upgrade
upgrade-ok = refl

-- A subscription that was upgraded is not downgraded in the same cycle.
upgrade-downgrade :
    (downgrade env0 1 1 (upgrade env0 1 3 (calm 9 sample)).1).0 ≡ err invalid_plan_transition
unfolding find? update ◌>>=◌ find_by_id find_by_user_id update_subscription set_cancellation
    set_pending_downgrade set_upgraded_from update_package_id find_package update_storage_limits
    razorpay on_razorpay find_active apply_upgrade upgrade downgrade_to_free downgrade
upgrade-downgrade = refl

abbrev scheduled : Db
scheduled = record sample {
  subscriptions =
      record (new_subscription 1 3 active) {
        id = 1;
        razorpay_subscription_id = some 40;
        current_period_end = some 500;
        pending_package_id = some 2;
      }
      ∷ [];
}

-- A downgrade to a package that costs is applied when its period ended, and the subscription expired in
-- the same run.
applied-expired :
    let d = (process_scheduled_downgrades (calm 600 scheduled)).1.db in
    ((first d).package_id ≡ 2) × ((first d).status ≡ expired) × (d.limits 1 ≡ (1001, 101))
unfolding find? update select ◌>>=◌ update_subscription update_status set_pending_downgrade
    update_package_id find_package find_package_by_name same update_storage_limits
    list_expiring_or_expired list_pending_downgrades free_tier_limits change_limits apply_downgrade
    apply_pending apply_all apply_found expire_all expire_found process_scheduled_downgrades
applied-expired = (refl, refl, refl)

upgrade-IsUpgrade_example : IsUpgrade sample 1 3
upgrade-IsUpgrade_example = upgrade-IsUpgrade env0 1 3 (calm 9 sample) _ upgrade-ok

subscribe-Open_example : Ending (Refused env0) (λ s. Open env0) (subscribe env0 2 3 (calm 9 sample))
unfolding is_open
subscribe-Open_example = subscribe-Open env0 2 3 (calm 9 sample) refl

process-IsSettled_example :
    let (r, w) = process_scheduled_downgrades (calm 600 scheduled) in
    (r ≡ ok tt) × All (IsSettled 600) w.db.subscriptions
process-IsSettled_example = process-IsSettled 600 scheduled

abbrev hooks0 : WebhookEnv
hooks0 = record {
  verify_webhook_signature = λ b s. true;
  unmarshal = λ b. some record {
    id = 77;
    kind = is_charged;
    subscription = 40;
    plan_id = 0;
    status = none;
    current_start = 500;
    current_end = 900;
    payment = 5;
    amount = 118;
    order_id = 6;
    created_at = 500;
  };
  composite_key = λ k s p t. t;
  base_paise = λ p t. t;
}

handle-Distinct_example :
    Distinct payment_of
      (handle_razorpay_webhook env0 hooks0 1 1 (calm 501 sample)).1.db.transactions
handle-Distinct_example = handle-Distinct env0 hooks0 1 1 501 sample tt

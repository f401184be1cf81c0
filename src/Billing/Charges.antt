-- ===== src/Billing/Charges.antt =====
-- What the events of a webhook do to the payments when nothing fails.
use bytevault.Prelude.{ℕ, none, List, ◌∷◌, Option-cases, ◌≡◌, refl, ◌==◌, inl, inr}
use bytevault.Prelude.Table.{find?}
use bytevault.Prelude.Table.Keys.{Distinct, fresh-All}
use bytevault.Prelude.Action.{World, Result, ok, err, ◌>>=◌}
use bytevault.Prelude.Action.Calm.{
  calm, Quiet, IsCalm, calm_rules, query-IsCalm, bind-IsCalm, ignore-IsCalm,
}
use bytevault.Billing.{Status, Subscription, Package, Transaction, Db, Env, Error}
use bytevault.Billing.Repository.{
  find_by_razorpay_id, update_subscription, update_status, set_cancellation, set_pending_downgrade,
  update_package_id, set_upgraded_from, find_package, find_package_by_name, update_storage_limits,
}
use bytevault.Billing.Service.{free_tier_limits, grant}
use bytevault.Billing.Webhooks.{
  Kind, is_authenticated, is_activated, is_charged, is_completed, is_expired, is_cancelled,
  is_halted, is_pending, is_paused, is_resumed, is_updated, is_other, Event, WebhookEnv, exists,
  record_event, find_by_razorpay_payment_id, next_invoice_number, create_transaction,
  find_by_razorpay_plan_id, new_charge, charge_once, record_charge, change_status, reset_limits,
  charge, on_charged, on_cancelled, change_plan, new_plan, on_updated, on_activated, on_ended,
  dispatch, dispatch_found, dispatch_event, process_event, process_new, finish, receive,
  handle_razorpay_webhook,
}

abbrev pub payment_of : Transaction → ℕ
payment_of t = t.razorpay_payment_id

-- `C` holds of the payments and goes on to hold with one that is new.
module _ (C : List Transaction → Type 0)
    (add : (t : Transaction) (ts : List Transaction)
      → C ts
      → find? (λ x. x.razorpay_payment_id == t.razorpay_payment_id) ts ≡ none
      → C (t ∷ ts)) where
  abbrev P : Db → Type 0
  P d = C d.transactions

  row-IsCalm : (id : ℕ) (f : Subscription → Subscription) → IsCalm P (update_subscription id f)
  unfolding update_subscription
  row-IsCalm id f = bind-IsCalm _ _ (query-IsCalm _ _ (λ n d h. h)) (λ row. search calm_rules)

  change_status-IsCalm :
      (s : Subscription) (ev : Event) (status : Status) → IsCalm P (change_status s ev status)
  unfolding change_status update_status
  change_status-IsCalm s ev status = row-IsCalm s.id _

  limits-IsCalm : (user : ℕ) (l : ℕ × ℕ) → IsCalm P (update_storage_limits user l)
  unfolding update_storage_limits
  limits-IsCalm user l = query-IsCalm _ _ (λ n d h. h)

  reset_limits-IsCalm : (s : Subscription) → IsCalm P (reset_limits s)
  unfolding reset_limits free_tier_limits find_package_by_name
  reset_limits-IsCalm s = search (calm_rules, limits-IsCalm) depth 9

  find_package-IsCalm : (id : ℕ) → IsCalm P (find_package id)
  unfolding find_package
  find_package-IsCalm id = search calm_rules depth 9

  grant-IsCalm : (user : ℕ) (p : Result Error Package) → IsCalm P (grant user p)
  unfolding grant
  grant-IsCalm user (ok p) = search (calm_rules, limits-IsCalm)
  grant-IsCalm user (err e) = search calm_rules

  -- A payment is recorded when no row has it yet.
  new_charge-Quiet :
      (env : WebhookEnv) (s : Subscription) (ev : Event) (w : World Db)
      → Quiet P w
      → find? (λ t. t.razorpay_payment_id == ev.payment) w.db.transactions ≡ none
      → Quiet P (new_charge env s ev w).1
  unfolding new_charge find_package next_invoice_number create_transaction ◌>>=◌
  new_charge-Quiet env s ev w h fresh =
      elim (Option-cases (find? (λ p. p.id == s.package_id) w.db.packages)) [
        | inl e ↦ rw (h.0, e) (refl, add _ _ h.1 fresh)
        | inr (p, e) ↦ rw (h.0, e) (refl, add _ _ h.1 fresh)
      ]

  record_charge-IsCalm :
      (env : WebhookEnv) (s : Subscription) (ev : Event) → IsCalm P (record_charge env s ev)
  unfolding record_charge charge_once find_by_razorpay_payment_id ◌>>=◌
  record_charge-IsCalm env s ev = record {
    at = λ w h.
        elim (Option-cases (find? (λ t. t.razorpay_payment_id == ev.payment) w.db.transactions)) [
          | inl e ↦ rw (h.0, e) (new_charge-Quiet env s ev _ (refl, h.1) e)
          | inr (t, e) ↦ rw (h.0, e) (refl, h.1)
        ];
  }

  charge-IsCalm : (env : WebhookEnv) (s : Subscription) (ev : Event) → IsCalm P (charge env s ev)
  unfolding charge
  charge-IsCalm env s ev = search (calm_rules, record_charge-IsCalm)

  on_charged-IsCalm :
      (env : WebhookEnv) (s : Subscription) (ev : Event) → IsCalm P (on_charged env s ev)
  unfolding on_charged set_upgraded_from
  on_charged-IsCalm env s ev =
      search (calm_rules, change_status-IsCalm, row-IsCalm, charge-IsCalm) depth 9

  on_cancelled-IsCalm : (s : Subscription) (ev : Event) → IsCalm P (on_cancelled s ev)
  unfolding on_cancelled set_cancellation
  on_cancelled-IsCalm s ev =
      search (calm_rules, change_status-IsCalm, row-IsCalm, reset_limits-IsCalm) depth 9

  change_plan-IsCalm : (s : Subscription) (p : Result Error Package) → IsCalm P (change_plan s p)
  unfolding change_plan update_package_id set_pending_downgrade
  change_plan-IsCalm s (ok p) = search (calm_rules, row-IsCalm, limits-IsCalm) depth 9
  change_plan-IsCalm s (err e) = search calm_rules

  on_updated-IsCalm : (s : Subscription) (ev : Event) → IsCalm P (on_updated s ev)
  unfolding on_updated new_plan find_by_razorpay_plan_id
  on_updated-IsCalm s ev = search (calm_rules, change_status-IsCalm, change_plan-IsCalm) depth 12

  on_activated-IsCalm : (s : Subscription) (ev : Event) → IsCalm P (on_activated s ev)
  unfolding on_activated
  on_activated-IsCalm s ev =
      search (calm_rules, change_status-IsCalm, find_package-IsCalm, grant-IsCalm) depth 9

  on_ended-IsCalm :
      (s : Subscription) (ev : Event) (status : Status) → IsCalm P (on_ended s ev status)
  unfolding on_ended
  on_ended-IsCalm s ev status = search (calm_rules, change_status-IsCalm, reset_limits-IsCalm)

  dispatch-IsCalm :
      (env : WebhookEnv) (s : Subscription) (ev : Event) (k : Kind) → IsCalm P (dispatch env s ev k)
  unfolding dispatch
  dispatch-IsCalm env s ev is_authenticated = change_status-IsCalm s ev _
  dispatch-IsCalm env s ev is_activated = on_activated-IsCalm s ev
  dispatch-IsCalm env s ev is_charged = on_charged-IsCalm env s ev
  dispatch-IsCalm env s ev is_completed = on_ended-IsCalm s ev _
  dispatch-IsCalm env s ev is_expired = on_ended-IsCalm s ev _
  dispatch-IsCalm env s ev is_cancelled = on_cancelled-IsCalm s ev
  dispatch-IsCalm env s ev is_halted = change_status-IsCalm s ev _
  dispatch-IsCalm env s ev is_pending = change_status-IsCalm s ev _
  dispatch-IsCalm env s ev is_paused = change_status-IsCalm s ev _
  dispatch-IsCalm env s ev is_resumed = change_status-IsCalm s ev _
  dispatch-IsCalm env s ev is_updated = on_updated-IsCalm s ev
  dispatch-IsCalm env s ev is_other = search calm_rules

  dispatch_found-IsCalm :
      (env : WebhookEnv) (ev : Event) (r : Result Error Subscription)
      → IsCalm P (dispatch_found env ev r)
  unfolding dispatch_found
  dispatch_found-IsCalm env ev (ok s) = dispatch-IsCalm env s ev ev.kind
  dispatch_found-IsCalm env ev (err e) = search calm_rules

  pub process_event-IsCalm : (env : WebhookEnv) (ev : Event) → IsCalm P (process_event env ev)
  unfolding process_event dispatch_event find_by_razorpay_id
  process_event-IsCalm env ev = search (calm_rules, dispatch_found-IsCalm) depth 12

finish-Once :
    (hooks : WebhookEnv) (ev : Event) (r : Result Error Unit)
    → IsCalm (λ d. Distinct payment_of d.transactions) (finish hooks ev r)
unfolding finish record_event
finish-Once hooks ev (ok x) =
    bind-IsCalm _ _ (ignore-IsCalm _ (query-IsCalm _ _ (λ n d h. h))) (λ x. search calm_rules)
finish-Once hooks ev (err e) = search calm_rules

process-Once :
    (hooks : WebhookEnv) (ev : Event)
    → IsCalm (λ d. Distinct payment_of d.transactions) (process_event hooks ev)
process-Once =
    process_event-IsCalm (Distinct payment_of) λ t ts h fresh. (fresh-All payment_of _ ts fresh, h)

handle-IsCalm :
    (env : Env) (hooks : WebhookEnv) (signature body : ℕ)
    → IsCalm
        (λ d. Distinct payment_of d.transactions)
        (handle_razorpay_webhook env hooks signature body)
unfolding handle_razorpay_webhook receive exists process_new
handle-IsCalm env hooks signature body = search (calm_rules, process-Once, finish-Once) depth 24

-- When nothing fails, a webhook leaves no payment recorded twice where none was.
pub handle-Distinct :
    (env : Env) (hooks : WebhookEnv) (signature body now : ℕ) (d : Db)
    → Distinct payment_of d.transactions
    → Distinct payment_of
        (handle_razorpay_webhook env hooks signature body (calm now d)).1.db.transactions
handle-Distinct env hooks signature body now d h =
    ((handle-IsCalm env hooks signature body).at (calm now d) (refl, h)).1

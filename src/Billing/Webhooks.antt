-- ===== src/Billing/Webhooks.antt =====
-- internal/handler/webhook_handler.go, with RecordCharge of internal/service/transaction_service.go and the
-- statements of internal/repository/webhook_event_repository.go and transaction_repository.go.
use bytevault.Prelude.{
  ℕ, zero, suc, Bool, true, false, not, Option, none, some, List, [], ◌∷◌, ◌||◌, leb, ◌==◌,
  if◌then◌else◌, is_some,
}
use bytevault.Prelude.Table.{find?}
use bytevault.Prelude.Action.{
  Result, ok, err, pure, raise, gets, query, attempt, ignore, require, or_raise, when, ◌>>=◌, ◌>>◌,
}
use bytevault.Billing.{
  Status, authenticated, active, pending, halted, cancelled, completed, paused, expired,
  Subscription, Package, Transaction, Error, query_failed, package_not_found, not_configured,
  bad_signature, missing_signature, invalid_json, processing_failed, Service, Env,
}
use bytevault.Billing.Repository.{
  find_by_razorpay_id, update_status, set_cancellation, set_pending_downgrade, update_package_id,
  set_upgraded_from, find_package, update_storage_limits,
}
use bytevault.Billing.Service.{limits_of, free_tier_limits, grant, time_of}

-- The events `subscription.authenticated` and so on.
pub data Kind : Type 0 where
  is_authenticated is_activated is_charged is_completed is_expired is_cancelled is_halted : Kind
  is_pending is_paused is_resumed is_updated is_other : Kind

-- `RazorpayWebhookPayload`, with 0 for what is empty.
pub record Event : Type 0 where
  pub id : ℕ
  pub kind : Kind
  pub subscription : ℕ
  pub plan_id : ℕ
  pub status : Option Status
  pub current_start : ℕ
  pub current_end : ℕ
  pub payment : ℕ
  pub amount : ℕ
  pub order_id : ℕ
  pub created_at : ℕ

-- The check of a signature, the decoding of a body, the text that stands for an event without an id, and
-- the part of a total before tax, which the code computes with floating point numbers.
pub record WebhookEnv : Type 0 where
  pub verify_webhook_signature : ℕ → ℕ → Bool
  pub unmarshal : ℕ → Option Event
  pub composite_key : Kind → ℕ → ℕ → ℕ → ℕ
  pub base_paise : Option Package → ℕ → ℕ

pub data Answer : Type 0 where
  already_processed processed : Answer

-- internal/repository/webhook_event_repository.go

abbrev pub is_processed : ℕ → List ℕ → Bool
is_processed id [] = false
is_processed id (e ∷ es) = e == id || is_processed id es

unfoldable pub exists : ℕ → Service Bool
exists id = query query_failed (λ now d. (is_processed id d.processed_events, d))

-- ON CONFLICT (event_id) DO NOTHING
abbrev pub recorded : ℕ → List ℕ → List ℕ
recorded id es = if is_processed id es then es else id ∷ es

unfoldable pub record_event : ℕ → Service Unit
record_event id =
    query query_failed λ now d. (tt, record d { processed_events = recorded id d.processed_events })

-- internal/repository/transaction_repository.go

unfoldable pub find_by_razorpay_payment_id : ℕ → Service (Option Transaction)
find_by_razorpay_payment_id id =
    query query_failed (λ now d. (find? (λ t. t.razorpay_payment_id == id) d.transactions, d))

unfoldable pub next_invoice_number : Service ℕ
next_invoice_number =
    query query_failed (λ now d. (d.next_invoice, record d { next_invoice = suc d.next_invoice }))

unfoldable pub create_transaction : Transaction → Service Transaction
create_transaction t =
    query query_failed (λ now d. (t, record d { transactions = t ∷ d.transactions }))

unfoldable pub find_by_razorpay_plan_id : ℕ → Service Package
find_by_razorpay_plan_id plan = do
  row ← query package_not_found λ now d.
      (find? (λ p. elim p.razorpay_plan_id [ none ↦ false | some i ↦ i == plan ]) d.packages, d)
  or_raise row package_not_found

-- internal/service/transaction_service.go

abbrev pub found_or_none : {A : Type 0} → Result Error A → Option A
found_or_none (ok a) = some a
found_or_none (err e) = none

abbrev pub known : Result Error (Option Transaction) → Option Transaction
known (ok t) = t
known (err e) = none

unfoldable pub new_charge : WebhookEnv → Subscription → Event → Service Transaction
new_charge env s ev = do
  p ← attempt (find_package s.package_id)
  number ← attempt next_invoice_number
  create_transaction record {
    user_id = s.user_id;
    subscription_id = s.id;
    package_id = s.package_id;
    razorpay_payment_id = ev.payment;
    razorpay_order_id = ev.order_id;
    amount_paise = env.base_paise (found_or_none p) ev.amount;
    total_paise = ev.amount;
    invoice_number = found_or_none number;
  }

unfoldable pub charge_once :
    WebhookEnv → Subscription → Event → Option Transaction → Service Transaction
charge_once env s ev none = new_charge env s ev
charge_once env s ev (some t) = pure t

-- `RecordCharge`
unfoldable pub record_charge : WebhookEnv → Subscription → Event → Service Transaction
record_charge env s ev = do
  existing ← attempt (find_by_razorpay_payment_id ev.payment)
  charge_once env s ev (known existing)

-- internal/handler/webhook_handler.go

-- `getEventID`
abbrev pub get_event_id : WebhookEnv → Event → ℕ
get_event_id env ev =
    if ev.id == 0 then env.composite_key ev.kind ev.subscription ev.payment ev.created_at else ev.id

unfoldable pub change_status : Subscription → Event → Status → Service Unit
change_status s ev status =
    update_status s.id status (time_of ev.current_start) (time_of ev.current_end)
      (time_of ev.payment)

unfoldable pub reset_limits : Subscription → Service Unit
reset_limits s = do free ← free_tier_limits; ignore (update_storage_limits s.user_id free)

unfoldable pub charge : WebhookEnv → Subscription → Event → Service Unit
charge env s ev = do t ← record_charge env s ev; pure tt

unfoldable pub on_charged : WebhookEnv → Subscription → Event → Service Unit
on_charged env s ev = do
  change_status s ev active
  ignore (set_upgraded_from s.id none)
  when (not (ev.payment == 0)) (charge env s ev)

-- The period that the event tells has no end, or it ended.
abbrev pub is_over : ℕ → ℕ → Bool
is_over now zero = true
is_over now (suc t) = leb (suc t) now

unfoldable pub on_cancelled : Subscription → Event → Service Unit
on_cancelled s ev = do
  now ← gets (λ t d. t)
  change_status s ev cancelled
  set_cancellation s.id false (some now)
  when (is_over now ev.current_end) (reset_limits s)

unfoldable pub change_plan : Subscription → Result Error Package → Service Unit
change_plan s (err e) = pure tt
change_plan s (ok p) = do
  update_package_id s.id p.id
  when (is_some s.pending_package_id) (ignore (set_pending_downgrade s.id none))
  ignore (update_storage_limits s.user_id (limits_of p))

abbrev pub status_or : Option Status → Status
status_or none = active
status_or (some s) = s

unfoldable pub new_plan : Subscription → ℕ → Service Unit
new_plan s plan = do p ← attempt (find_by_razorpay_plan_id plan); change_plan s p

unfoldable pub on_updated : Subscription → Event → Service Unit
on_updated s ev = do
  when (not (ev.plan_id == 0)) (new_plan s ev.plan_id)
  change_status s ev (status_or ev.status)

unfoldable pub on_activated : Subscription → Event → Service Unit
on_activated s ev = do
  change_status s ev active
  p ← attempt (find_package s.package_id)
  grant s.user_id p

unfoldable pub on_ended : Subscription → Event → Status → Service Unit
on_ended s ev status = do change_status s ev status; reset_limits s

unfoldable pub dispatch : WebhookEnv → Subscription → Event → Kind → Service Unit
dispatch env s ev is_authenticated = change_status s ev authenticated
dispatch env s ev is_activated = on_activated s ev
dispatch env s ev is_charged = on_charged env s ev
dispatch env s ev is_completed = on_ended s ev completed
dispatch env s ev is_expired = on_ended s ev expired
dispatch env s ev is_cancelled = on_cancelled s ev
dispatch env s ev is_halted = change_status s ev halted
dispatch env s ev is_pending = change_status s ev pending
dispatch env s ev is_paused = change_status s ev paused
dispatch env s ev is_resumed = change_status s ev active
dispatch env s ev is_updated = on_updated s ev
dispatch env s ev is_other = pure tt

-- A subscription that is not known is not tried again.
unfoldable pub dispatch_found : WebhookEnv → Event → Result Error Subscription → Service Unit
dispatch_found env ev (ok s) = dispatch env s ev ev.kind
dispatch_found env ev (err e) = pure tt

unfoldable pub dispatch_event : WebhookEnv → Event → Service Unit
dispatch_event env ev = do
  row ← attempt (find_by_razorpay_id ev.subscription)
  dispatch_found env ev row

-- `processEvent`
unfoldable pub process_event : WebhookEnv → Event → Service Unit
process_event env ev = when (not (ev.subscription == 0)) (dispatch_event env ev)

-- A failure is answered as one, for Razorpay to try again; a success is recorded.
unfoldable pub finish : WebhookEnv → Event → Result Error (Unit {0}) → Service Answer
finish env ev (err e) = raise processing_failed
finish env ev (ok x) = do ignore (record_event (get_event_id env ev)); pure processed

unfoldable pub process_new : WebhookEnv → Event → Service Answer
process_new env ev = do done ← attempt (process_event env ev); finish env ev done

abbrev pub is_duplicate : Result Error Bool → Bool
is_duplicate (ok b) = b
is_duplicate (err e) = false

unfoldable pub receive : WebhookEnv → Event → Service Answer
receive env ev = do
  seen ← attempt (exists (get_event_id env ev))
  if is_duplicate seen then pure already_processed else process_new env ev

-- `HandleRazorpayWebhook` on a signature, 0 where there is none, and a body.
unfoldable pub handle_razorpay_webhook : Env → WebhookEnv → ℕ → ℕ → Service Answer
handle_razorpay_webhook env hooks signature body = do
  require (not (signature == 0)) missing_signature
  require env.configured not_configured
  require (hooks.verify_webhook_signature body signature) bad_signature
  ev ← or_raise (hooks.unmarshal body) invalid_json
  receive hooks ev

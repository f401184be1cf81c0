-- ===== src/Billing.antt =====
-- Subscriptions: internal/model/subscription.go, internal/model/package.go and the state of
-- internal/service/subscription_service.go. Statements are in Repository, the users' methods in Service,
-- the admins' in Admin, the scheduler's in Scheduler, the webhooks of Razorpay in Webhooks.
pub mod Repository
pub mod Service
pub mod Admin
pub mod Scheduler
pub mod Webhooks
pub mod Transitions
pub mod Orphans
pub mod Periods
pub mod Charges
pub mod Repeats
mod Tests
use bytevault.Prelude.{ℕ, Bool, Option, List}
use bytevault.Prelude.Text.{Text}
use bytevault.Prelude.Action.{Action}

pub data Status : Type 0 where
  created authenticated active pending halted cancelled completed paused expired : Status

pub record Subscription : Type 0 where
  pub id : ℕ
  pub user_id : ℕ
  pub package_id : ℕ
  pub razorpay_subscription_id : Option ℕ
  pub razorpay_customer_id : Option ℕ
  pub razorpay_payment_id : Option ℕ
  pub status : Status
  pub current_period_start : Option ℕ
  pub current_period_end : Option ℕ
  pub cancelled_at : Option ℕ
  pub cancel_at_cycle_end : Bool
  pub pending_package_id : Option ℕ
  pub upgraded_from_id : Option ℕ

pub record Package : Type 0 where
  pub id : ℕ
  pub name : Text
  pub price_paise : ℕ
  pub storage_limit_bytes : ℕ
  pub max_file_size_bytes : ℕ
  pub razorpay_plan_id : Option ℕ

-- When a change of plan takes effect.
pub data When : Type 0 where
  now_ cycle_end : When

-- A payment of internal/model/transaction.go. `amount_paise` is the part before tax, and the tax is what
-- is left of the total; the invoice has a number of the sequence or, if that failed, none of its own.
pub record Transaction : Type 0 where
  pub user_id : ℕ
  pub subscription_id : ℕ
  pub package_id : ℕ
  pub razorpay_payment_id : ℕ
  pub razorpay_order_id : ℕ
  pub amount_paise : ℕ
  pub total_paise : ℕ
  pub invoice_number : Option ℕ

-- What is asked of Razorpay.
pub data RazorpayCall : Type 0 where
  create_subscription : ℕ → ℕ → RazorpayCall
  update_subscription : ℕ → ℕ → When → RazorpayCall
  cancel_subscription : ℕ → Bool → RazorpayCall

-- The rows of the tables, the newest first; `limits` are the columns of a user for the total and for one
-- file, and the events are the ids of the webhooks that were processed.
pub record Db : Type 0 where
  pub subscriptions : List Subscription
  pub next_id : ℕ
  pub packages : List Package
  pub limits : ℕ → ℕ × ℕ
  pub calls : List RazorpayCall
  pub transactions : List Transaction
  pub next_invoice : ℕ
  pub processed_events : List ℕ

pub data Error : Type 0 where
  query_failed not_found package_not_found no_active_subscription active_subscription_exists : Error
  free_tier_no_payment same_plan invalid_plan_transition no_razorpay_plan not_configured : Error
  bad_signature not_owner razorpay_failed creation_failed no_pending_downgrade : Error
  missing_signature invalid_json processing_failed : Error

abbrev pub Service : Type 0 → Type 0
Service A = Action Error Db A

-- A subscription as Razorpay tells it; it has a status, and 0 for a time that is not set.
pub record RazorpaySubscription : Type 0 where
  pub status : Status
  pub current_start : ℕ
  pub current_end : ℕ

-- What comes from outside: whether the client is configured, the ids that Razorpay gives, the check of
-- its signature, what it tells of a subscription, and Go's `AddDate` by a month.
pub record Env : Type 0 where
  pub configured : Bool
  pub new_subscription_id : ℕ
  pub customer_id : Option ℕ
  pub valid_signature : ℕ → ℕ → ℕ → Bool
  pub told : ℕ → RazorpaySubscription
  pub next_month : ℕ → ℕ

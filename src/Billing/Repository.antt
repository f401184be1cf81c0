-- ===== src/Billing/Repository.antt =====
-- internal/repository/subscription_repository.go, and the statements of the packages' and users'
-- repositories that the service uses.
use bytevault.Prelude.{
  ℕ, suc, Bool, true, false, ◌&&◌, Option, none, some, List, ◌∷◌, leb, ◌==◌, if◌then◌else◌, is_some,
}
use bytevault.Prelude.Text.{Text, same}
use bytevault.Prelude.Table.{find?, update, select}
use bytevault.Prelude.Action.{pure, query, or_raise, ◌>>=◌}
use bytevault.Billing.{
  Status, created, authenticated, active, pending, Subscription, Package, Db, query_failed,
  not_found, package_not_found, Service,
}

abbrev pub is_active : Status → Bool
is_active active = true
is_active _ = false

abbrev pub is_created : Status → Bool
is_created created = true
is_created _ = false

-- status IN ('active', 'authenticated', 'pending', 'created')
abbrev pub is_current : Status → Bool
is_current active = true
is_current authenticated = true
is_current pending = true
is_current created = true
is_current _ = false

-- The id is given by the table.
abbrev pub insert_row : Subscription → ℕ → Db → Subscription × Db
insert_row s now d =
    let row : Subscription = record s { id = d.next_id } in
    (row, record d { subscriptions = row ∷ d.subscriptions; next_id = suc d.next_id })

unfoldable pub create : Subscription → Service Subscription
create s = query query_failed (insert_row s)

unfoldable pub find_by_id : ℕ → Service Subscription
find_by_id id = do
  row ← query query_failed (λ now d. (find? (λ s. s.id == id) d.subscriptions, d))
  or_raise row not_found

unfoldable pub find_by_user_id : ℕ → Service (Option Subscription)
find_by_user_id user =
    query query_failed
      λ now d. (find? (λ s. s.user_id == user && is_current s.status) d.subscriptions, d)

abbrev pub has_razorpay_id : ℕ → Subscription → Bool
has_razorpay_id id s = elim s.razorpay_subscription_id [ none ↦ false | some i ↦ i == id ]

unfoldable pub find_by_razorpay_id : ℕ → Service Subscription
find_by_razorpay_id id = do
  row ← query query_failed (λ now d. (find? (has_razorpay_id id) d.subscriptions, d))
  or_raise row not_found

-- `UPDATE subscriptions SET ... WHERE id = $1`: no row is an error.
unfoldable pub update_subscription : ℕ → (Subscription → Subscription) → Service Unit
update_subscription id f = do
  row ← query query_failed λ now d. (
    find? (λ s. s.id == id) d.subscriptions,
    record d { subscriptions = update (λ s. s.id == id) f d.subscriptions },
  )
  _ ← or_raise row not_found
  pure tt

-- COALESCE(new, old)
abbrev pub coalesce : Option ℕ → Option ℕ → Option ℕ
coalesce none old = old
coalesce (some new) old = some new

abbrev pub set_status : Status → Option ℕ → Option ℕ → Option ℕ → Subscription → Subscription
set_status status start end payment s = record s {
  status = status;
  current_period_start = coalesce start s.current_period_start;
  current_period_end = coalesce end s.current_period_end;
  razorpay_payment_id = coalesce payment s.razorpay_payment_id;
}

unfoldable pub update_status : ℕ → Status → Option ℕ → Option ℕ → Option ℕ → Service Unit
update_status id status start end payment =
    update_subscription id (set_status status start end payment)

abbrev pub cancelled_row : Bool → Option ℕ → Subscription → Subscription
cancelled_row at_end at s = record s { cancel_at_cycle_end = at_end; cancelled_at = at }

unfoldable pub set_cancellation : ℕ → Bool → Option ℕ → Service Unit
set_cancellation id at_end at = update_subscription id (cancelled_row at_end at)

abbrev pub pending_row : Option ℕ → Subscription → Subscription
pending_row target s = record s { pending_package_id = target }

unfoldable pub set_pending_downgrade : ℕ → Option ℕ → Service Unit
set_pending_downgrade id target = update_subscription id (pending_row target)

abbrev pub package_row : ℕ → Subscription → Subscription
package_row target s = record s { package_id = target; pending_package_id = none }

unfoldable pub update_package_id : ℕ → ℕ → Service Unit
update_package_id id target = update_subscription id (package_row target)

abbrev pub upgraded_row : Option ℕ → Subscription → Subscription
upgraded_row from s = record s { upgraded_from_id = from }

unfoldable pub set_upgraded_from : ℕ → Option ℕ → Service Unit
set_upgraded_from id from = update_subscription id (upgraded_row from)

-- current_period_end <= $1
abbrev pub has_ended : ℕ → Subscription → Bool
has_ended now s = elim s.current_period_end [ none ↦ false | some t ↦ leb t now ]

unfoldable pub list_expiring_or_expired : Service (List Subscription)
list_expiring_or_expired =
    query query_failed
      λ now d. (select (λ s. is_active s.status && has_ended now s) d.subscriptions, d)

unfoldable pub list_pending_downgrades : Service (List Subscription)
list_pending_downgrades =
    query query_failed
      λ now d. (select (λ s. is_some s.pending_package_id && has_ended now s) d.subscriptions, d)

unfoldable pub find_package : ℕ → Service Package
find_package id = do
  row ← query package_not_found (λ now d. (find? (λ p. p.id == id) d.packages, d))
  or_raise row package_not_found

unfoldable pub find_package_by_name : Text → Service Package
find_package_by_name name = do
  row ← query package_not_found (λ now d. (find? (λ p. same p.name name) d.packages, d))
  or_raise row package_not_found

abbrev pub limited : ℕ → ℕ × ℕ → (ℕ → ℕ × ℕ) → ℕ → ℕ × ℕ
limited user l m u = if u == user then l else m u

-- `UpdateStorageLimits` of internal/repository/user_repository.go.
unfoldable pub update_storage_limits : ℕ → ℕ × ℕ → Service Unit
update_storage_limits user l =
    query query_failed (λ now d. (tt, record d { limits = limited user l d.limits }))

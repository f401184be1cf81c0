-- ===== src/Billing/Scheduler.antt =====
-- `ProcessScheduledDowngrades` of internal/service/subscription_service.go, without its third part, the
-- reminders of renewals.
use bytevault.Prelude.{none, some, List, [], ◌∷◌, ℕ}
use bytevault.Prelude.Action.{Result, ok, err, pure, attempt, ignore, ◌>>=◌, ◌>>◌}
use bytevault.Billing.{expired, Subscription, Package, Error, Service}
use bytevault.Billing.Repository.{
  update_status, set_pending_downgrade, update_package_id, list_expiring_or_expired,
  list_pending_downgrades, find_package, update_storage_limits,
}
use bytevault.Billing.Service.{limits_of, free_tier_limits}

unfoldable pub change_limits : Subscription → Package → Result Error (Unit {0}) → Service Unit
change_limits s p (ok x) = ignore (update_storage_limits s.user_id (limits_of p))
change_limits s p (err e) = pure tt

-- A package that is gone clears the change; a package that cannot be set leaves it for the next run.
unfoldable pub apply_downgrade : Subscription → Result Error Package → Service Unit
apply_downgrade s (err e) = ignore (set_pending_downgrade s.id none)
apply_downgrade s (ok p) = do
  changed ← attempt (update_package_id s.id p.id)
  change_limits s p changed

unfoldable pub apply_pending : Subscription → Service Unit
apply_pending s = elim s.pending_package_id [
  | none ↦ pure tt
  | some target ↦ do p ← attempt (find_package target); apply_downgrade s p
]

unfoldable pub apply_all : List Subscription → Service Unit
apply_all [] = pure tt
apply_all (s ∷ ss) = do apply_pending s; apply_all ss

unfoldable pub apply_found : Result Error (List Subscription) → Service Unit
apply_found (ok ss) = apply_all ss
apply_found (err e) = pure tt

unfoldable pub expire_all : ℕ × ℕ → List Subscription → Service Unit
expire_all free [] = pure tt
expire_all free (s ∷ ss) = do
  ignore (update_status s.id expired none none none)
  ignore (update_storage_limits s.user_id free)
  expire_all free ss

unfoldable pub expire_found : Result Error (List Subscription) → Service Unit
expire_found (ok ss) = do free ← free_tier_limits; expire_all free ss
expire_found (err e) = pure tt

-- `ProcessScheduledDowngrades`
unfoldable pub process_scheduled_downgrades : Service Unit
process_scheduled_downgrades = do
  downgrades ← attempt list_pending_downgrades
  apply_found downgrades
  expiring ← attempt list_expiring_or_expired
  expire_found expiring

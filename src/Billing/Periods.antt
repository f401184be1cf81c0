-- ===== src/Billing/Periods.antt =====
-- What the scheduler leaves of a period that ended.
use bytevault.Prelude.{
  ℕ, Bool, true, false, ◌&&◌, ◌||◌, none, List, [], ◌∷◌, ◌≡◌, refl, sym, ◌∙◌, subst, arith, inl,
  inr, All, All-imp, ◌==◌, ==_refl, is_some, Bool-cases, Option-cases,
}
use bytevault.Prelude.Text.{bytes, same}
use bytevault.Prelude.Table.{find?, update, select}
use bytevault.Prelude.Action.{ok, ◌>>=◌}
use bytevault.Prelude.Action.Calm.{calm}
use bytevault.Billing.{Subscription, expired, Db}
use bytevault.Billing.Repository.{
  is_active, has_ended, set_status, update_subscription, update_status, set_pending_downgrade,
  update_package_id, find_package, find_package_by_name, update_storage_limits,
  list_expiring_or_expired, list_pending_downgrades,
}
use bytevault.Billing.Service.{free_tier_limits}
use bytevault.Billing.Scheduler.{
  change_limits, apply_downgrade, apply_pending, apply_all, apply_found, expire_all, expire_found,
  process_scheduled_downgrades,
}

abbrev is_due : ℕ → Subscription → Bool
is_due now s = is_active s.status && has_ended now s

abbrev pub IsSettled : ℕ → Subscription → Type 0
IsSettled now s = is_due now s ≡ false

abbrev is_listed : ℕ → List Subscription → Bool
is_listed id [] = false
is_listed id (s ∷ ss) = s.id == id || is_listed id ss

-- A row that is to expire is in the list of those to come.
abbrev IsOwed : ℕ → List Subscription → Subscription → Type 0
IsOwed now ss r = is_due now r ≡ true → is_listed r.id ss ≡ true

or_true : (a b : Bool) → b ≡ true → (a || b) ≡ true
or_true a b h = ground arith

or_first : (a b : Bool) → a ≡ true → (a || b) ≡ true
or_first a b h = ground arith

or_rest : (a b : Bool) → (a || b) ≡ true → a ≡ false → b ≡ true
or_rest a b h e = ground arith

select-yes :
    (p : Subscription → Bool) (r : Subscription) (rs : List Subscription)
    → p r ≡ true
    → select p (r ∷ rs) ≡ (r ∷ select p rs)
unfolding select
select-yes p r rs e = rw e refl

select-no :
    (p : Subscription → Bool) (r : Subscription) (rs : List Subscription)
    → p r ≡ false
    → select p (r ∷ rs) ≡ select p rs
unfolding select
select-no p r rs e = rw e refl

select-IsOwed : (now : ℕ) (rs : List Subscription) → All (IsOwed now (select (is_due now) rs)) rs
select-IsOwed now [] = tt
select-IsOwed now (r ∷ rs) = elim (Bool-cases (is_due now r)) [
  | inl e ↦
      subst (λ xs. All (IsOwed now xs) (r ∷ rs)) (sym (select-yes (is_due now) r rs e))
        (
          (λ h. or_first (r.id == r.id) _ (==_refl r.id)),
          All-imp (λ s f h. or_true (r.id == s.id) _ (f h)) rs (select-IsOwed now rs),
        )
  | inr e ↦
      subst (λ xs. All (IsOwed now xs) (r ∷ rs)) (sym (select-no (is_due now) r rs e))
        ((λ h. let z : false ≡ true = sym e ∙ h in absurd cc), select-IsOwed now rs)
]

none-IsSettled : (now : ℕ) (s : Subscription) → IsOwed now [] s → IsSettled now s
none-IsSettled now s h = elim (Bool-cases (is_due now s)) [
  | inl e ↦ let z : false ≡ true = h e in absurd cc
  | inr e ↦ e
]

expire-IsOwed :
    (now : ℕ) (s : Subscription) (ss rs : List Subscription)
    → All (IsOwed now (s ∷ ss)) rs
    → All (IsOwed now ss) (update (λ r. r.id == s.id) (set_status expired none none none) rs)
unfolding update
expire-IsOwed now s ss [] h = tt
expire-IsOwed now s ss (r ∷ rs) h = elim (Bool-cases (r.id == s.id)) [
  | inl e ↦ rw e ((λ z. absurd cc), expire-IsOwed now s ss rs h.1)
  | inr e ↦
      rw e
        ((λ due. or_rest (s.id == r.id) _ (h.0 due) (apart _ _ e)), expire-IsOwed now s ss rs h.1)
]
  where
    apart : (a b : ℕ) → (a == b) ≡ false → (b == a) ≡ false
    apart a b e = ground arith

expire_all-IsOwed :
    (free : ℕ × ℕ) (ss : List Subscription) (now : ℕ) (d : Db)
    → All (IsOwed now ss) d.subscriptions
    → let (r, w) = expire_all free ss (calm now d) in
      (r ≡ ok tt) × All (IsOwed now []) w.db.subscriptions
unfolding expire_all update_status update_subscription update_storage_limits ◌>>=◌
expire_all-IsOwed free [] now d h = (refl, h)
expire_all-IsOwed free (s ∷ ss) now d h =
    let next = expire-IsOwed now s ss d.subscriptions h in
    elim (Option-cases (find? (λ r. r.id == s.id) d.subscriptions)) [
      | inl e ↦ rw e (expire_all-IsOwed free ss now _ next)
      | inr (r, e) ↦ rw e (expire_all-IsOwed free ss now _ next)
    ]

-- When nothing fails, a pending change of plan is done with and the run goes on.
apply_pending-calm :
    (s : Subscription) (now : ℕ) (d : Db)
    → (d' : Db) × (apply_pending s (calm now d) ≡ (ok tt, calm now d'))
unfolding apply_pending apply_downgrade change_limits find_package set_pending_downgrade
    update_package_id update_subscription update_storage_limits ◌>>=◌
apply_pending-calm s now d =
    let d' = (apply_pending s (calm now d)).1.db in
    elim (Option-cases s.pending_package_id) [
      | inl e ↦ (d', rw e refl)
      | inr (target, e) ↦ elim (Option-cases (find? (λ p. p.id == target) d.packages)) [
        | inl f ↦ elim (Option-cases (find? (λ r. r.id == s.id) d.subscriptions)) [
          | inl g ↦ (d', rw (e, f, g) refl)
          | inr (r, g) ↦ (d', rw (e, f, g) refl)
        ]
        | inr (p, f) ↦ elim (Option-cases (find? (λ r. r.id == s.id) d.subscriptions)) [
          | inl g ↦ (d', rw (e, f, g) refl)
          | inr (r, g) ↦ (d', rw (e, f, g) refl)
        ]
      ]
    ]

apply_all-calm :
    (ss : List Subscription) (now : ℕ) (d : Db)
    → (d' : Db) × (apply_all ss (calm now d) ≡ (ok tt, calm now d'))
unfolding apply_all ◌>>=◌
apply_all-calm [] now d = (d, refl)
apply_all-calm (s ∷ ss) now d =
    let (d1, e1) = apply_pending-calm s now d in
    let (d2, e2) = apply_all-calm ss now d1 in (d2, rw e1 e2)

expire_found-IsOwed :
    (ss : List Subscription) (now : ℕ) (d : Db)
    → All (IsOwed now ss) d.subscriptions
    → let (r, w) = expire_found (ok ss) (calm now d) in
      (r ≡ ok tt) × All (IsOwed now []) w.db.subscriptions
unfolding expire_found free_tier_limits find_package_by_name ◌>>=◌
expire_found-IsOwed ss now d h =
    elim (Option-cases (find? (λ p. same p.name (bytes "free")) d.packages)) [
      | inl e ↦ rw e (expire_all-IsOwed _ ss now d h)
      | inr (p, e) ↦ rw e (expire_all-IsOwed _ ss now d h)
    ]

-- When nothing fails, the scheduler's run answers without an error and leaves no active subscription
-- whose period ended.
pub process-IsSettled :
    (now : ℕ) (d : Db)
    → let (r, w) = process_scheduled_downgrades (calm now d) in
      (r ≡ ok tt) × All (IsSettled now) w.db.subscriptions
unfolding process_scheduled_downgrades apply_found list_pending_downgrades list_expiring_or_expired
    ◌>>=◌
process-IsSettled now d =
    let (d1, e1) =
      apply_all-calm (select (λ s. is_some s.pending_package_id && has_ended now s) d.subscriptions)
        now d in
    let (r, rest) = expire_found-IsOwed _ now d1 (select-IsOwed now d1.subscriptions) in
    rw e1 (r, All-imp (none-IsSettled now) _ rest)

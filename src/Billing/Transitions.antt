-- ===== src/Billing/Transitions.antt =====
-- When a plan may change.
use bytevault.Prelude.{
  ℕ, ◌<◌, Bool, true, false, not, ◌&&◌, ◌||◌, Option, none, some, ◌≡◌, refl, subst, arith, ltb,
  ◌==◌, is_some,
}
use bytevault.Prelude.Table.{find?}
use bytevault.Prelude.Action.{World, ok, require, ◌>>=◌, ◌>>◌}
use bytevault.Prelude.Action.Keeps.{Keeps, keeps_rules}
use bytevault.Prelude.Action.Answers.{
  bind-ok, require-ok, read-then, attempt-then, or_raise-then, or_raise-last, pure-then,
}
use bytevault.Billing.{
  Subscription, Package, Db, Env, Error, query_failed, package_not_found, Service,
}
use bytevault.Billing.Repository.{is_active, is_current, find_by_user_id, find_package}
use bytevault.Billing.Service.{find_active, has_pending_change, upgrade}

abbrev pub is_current_of : ℕ → Subscription → Bool
is_current_of user s = s.user_id == user && is_current s.status

find_package-Keeps : {P : Db → Type 0} (id : ℕ) → Keeps P (find_package id)
unfolding find_package
find_package-Keeps id = search keeps_rules

find_active-Keeps : {P : Db → Type 0} (user : ℕ) → Keeps P (find_active user)
unfolding find_active find_by_user_id
find_active-Keeps user = search keeps_rules depth 9

package-found :
    (id : ℕ) (w : World Db) (p : Package)
    → (find_package id w).0 ≡ ok p
    → find? (λ q. q.id == id) w.db.packages ≡ some p
unfolding find_package
package-found id w p h =
    read-then package_not_found (λ now d. find? (λ q. q.id == id) d.packages) _ w p h
      (λ v same now r. or_raise-last _ _ v p r)

active-found :
    (user : ℕ) (w : World Db) (s : Subscription)
    → (find_active user w).0 ≡ ok s
    → (find? (is_current_of user) w.db.subscriptions ≡ some s) × (is_active s.status ≡ true)
unfolding find_active find_by_user_id
active-found user w s h =
    attempt-then query_failed (λ now d. find? (is_current_of user) d.subscriptions) _ w s h
      (λ v same now r. or_raise-then none _ _ v s r (λ a e x. absurd cc))
      λ v same now r. or_raise-then _ _ _ v s r λ a e r'.
        require-ok (is_active a.status) _ _ v s r' λ t r''.
          let one : a ≡ s = pure-then a s v r'' in
          subst
            (λ x.
              (find? (is_current_of user) w.db.subscriptions ≡ some x)
              × (is_active x.status ≡ true))
            one (e, t)

-- The subscription and the packages of a change of plan that is let through.
pub record IsChange (d : Db) (user target_id : ℕ) (s : Subscription) (before target : Package)
    : Type 0 where
  pub current : find? (is_current_of user) d.subscriptions ≡ some s
  pub active : is_active s.status ≡ true
  pub no_pending : s.pending_package_id ≡ none
  pub no_cancellation : s.cancel_at_cycle_end ≡ false
  pub from : find? (λ p. p.id == s.package_id) d.packages ≡ some before
  pub to : find? (λ p. p.id == target_id) d.packages ≡ some target

none-pending : (o : Option ℕ) (b : Bool) → not (is_some o || b) ≡ true → o ≡ none
none-pending none b h = refl
none-pending (some x) b h = let z : false ≡ true = h in cc

no_flag : (o : Option ℕ) (b : Bool) → not (is_some o || b) ≡ true → b ≡ false
no_flag o b h = ground arith

module _ {A : Type 0} (user target_id : ℕ) (k : Subscription → Package → Package → Service A) where
  change-IsChange {ℓ} :
      {P : Type ℓ} (e : Error) (w : World Db) (a : A)
      → ((find_active user >>= λ s. find_package s.package_id >>= λ before.
            find_package target_id >>= λ target.
            require (not (has_pending_change s)) e >> k s before target)
          w).0
        ≡ ok a
      → ((s : Subscription) (before target : Package) (v : World Db)
          → IsChange w.db user target_id s before target
          → (k s before target v).0 ≡ ok a
          → P)
      → P
  change-IsChange e w a h rest = bind-ok (find_active user) _ w a h λ s f r.
      bind-ok (find_package s.package_id) _ _ a r λ before g r'.
        bind-ok (find_package target_id) _ _ a r' λ target i r''.
          require-ok _ _ _ _ a r'' λ quiet last.
            let w1 = (find_active user w).1 in
            let same : w1.db ≡ w.db = (find_active-Keeps {P = λ d. d ≡ w.db} user).at w refl in
            let same' : (find_package s.package_id w1).1.db ≡ w.db =
              (find_package-Keeps {P = λ d. d ≡ w.db} s.package_id).at w1 same in
            let (current, active) = active-found user w s f in
            rest s before target _
              (record {
                current = current;
                active = active;
                no_pending = none-pending _ _ quiet;
                no_cancellation = no_flag _ _ quiet;
                from =
                    subst (λ d. find? (λ p. p.id == s.package_id) d.packages ≡ some before) same
                      (package-found _ w1 before g);
                to =
                    subst (λ d. find? (λ p. p.id == target_id) d.packages ≡ some target) same'
                      (package-found _ _ target i);
              })
              last

pub record IsUpgrade (d : Db) (user target_id : ℕ) : Type 0 where
  pub subscription : Subscription
  pub before : Package
  pub target : Package
  pub change : IsChange d user target_id subscription before target
  pub dearer : before.price_paise < target.price_paise

pub record IsDowngrade (d : Db) (user target_id : ℕ) : Type 0 where
  pub subscription : Subscription
  pub before : Package
  pub target : Package
  pub change : IsChange d user target_id subscription before target
  pub cheaper : target.price_paise < before.price_paise
  pub not_upgraded : subscription.upgraded_from_id ≡ none

less : (a b : ℕ) → ltb a b ≡ true → a < b
less a b h = ground arith

-- An upgrade that answers, whatever fails on the way, is of the user's current subscription, which was
-- active with no change and no cancellation pending, to a package that costs more than its own.
pub upgrade-IsUpgrade :
    (env : Env) (user target_id : ℕ) (w : World Db) (r : Subscription)
    → (upgrade env user target_id w).0 ≡ ok r
    → IsUpgrade w.db user target_id
unfolding upgrade
upgrade-IsUpgrade env user target_id w r h =
    change-IsChange user target_id _ _ w r h λ s before target v change rest.
      require-ok _ _ _ v r rest λ other rest'. require-ok _ _ _ v r rest' λ dearer last. record {
        subscription = s;
        before = before;
        target = target;
        change = change;
        dearer = less _ _ dearer;
      }

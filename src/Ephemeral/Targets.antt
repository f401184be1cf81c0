-- ===== src/Ephemeral/Targets.antt =====
-- What the purge gives to the storage.
use bytevault.Prelude.{
  ℕ, ◌≤◌, true, false, ◌&&◌, ◌||◌, List, [], ◌∷◌, ◌≡◌, refl, sym, subst, ap, ◌∙◌, arith, ltb, All,
  All-take, length-take, length-map, length, map,
}
use bytevault.Prelude.Table.{select, All-updated}
use bytevault.Prelude.Table.Counts.{All-select, All-selected}
use bytevault.Prelude.Action.{Result, ok}
use bytevault.Ephemeral.{Status, expired, Share, delete, Db, Error}
use bytevault.Ephemeral.Repository.{is_open, is_expired, is_burned, is_uploading}
use bytevault.Ephemeral.Purge.{
  Target, target, burned_before, is_purgeable, purge_expired_and_burned, purge_call,
}
use bytevault.Ephemeral.Change.{with_status}
use bytevault.Ephemeral.Answers.{reliable}
use bytevault.Ephemeral.Purged.{past_due, expired_at, batch, purge-reliable}

-- After the first statement an upload that is purgeable would still be past due.
closed_target :
    (now : ℕ) (r : Share)
    → past_due now r ≡ false
    → is_purgeable now r ≡ true
    → purge_call (target r) ≡ delete r.storage_key
unfolding purge_call
closed_target now r over match = rw (not_uploading r.status over match) refl
  where
    not_uploading :
        (st : Status)
        → (is_open st && ltb r.expires_at now) ≡ false
        → (ltb 0 r.storage_key
            && (is_expired st
                || is_open st && ltb r.expires_at now
                || is_burned st && burned_before r.burned_at now))
          ≡ true
        → is_uploading st ≡ false
    not_uploading st over match = ground arith

All-map :
    (now : ℕ) (rs : List Share)
    → All (λ r. past_due now r ≡ false) rs
    → All (λ r. is_purgeable now r ≡ true) rs
    → All (λ t. purge_call t ≡ delete t.storage_key) (map target rs)
All-map now [] over match = tt
All-map now (r ∷ rs) over match =
    (closed_target now r over.0 match.0, All-map now rs over.1 match.1)

answered : (xs ys : List Target) → ◌≡◌ {A = Result Error (List Target)} (ok xs) (ok ys) → xs ≡ ys
answered xs ys h = cc

-- When nothing fails, the purge returns at most 100 targets, and for each of them the scheduler
-- deletes the object of the key: it never aborts a multipart upload, also where the share was one
-- that was still being uploaded when it expired.
pub purge_call-delete :
    (now : ℕ) (d : Db) (ts : List Target)
    → (purge_expired_and_burned (reliable now d)).0 ≡ ok ts
    → (length ts ≤ 100) × All (λ t. purge_call t ≡ delete t.storage_key) ts
purge_call-delete now d ts h =
    subst (λ ts. (length ts ≤ 100) × All (λ t. purge_call t ≡ delete t.storage_key) ts) same
      (at_most, deleted)
  where
    same : map target (batch now d) ≡ ts
    same = answered _ _ (sym (ap (λ x. x.0) (purge-reliable now d)) ∙ h)

    at_most : length (map target (batch now d)) ≤ 100
    at_most = omega (
      arith,
      length-map target (batch now d),
      length-take 100 (select (is_purgeable now) (expired_at now d).shares),
    )

    over : All (λ r. past_due now r ≡ false) (expired_at now d).shares
    over = All-updated _ (past_due now) (with_status expired) d.shares (λ r h. refl) (λ r h. h)

    deleted : All (λ t. purge_call t ≡ delete t.storage_key) (map target (batch now d))
    deleted =
        All-map now (batch now d) (All-take _ 100 _ (All-select _ _ _ over))
          (All-take _ 100 _ (All-selected (is_purgeable now) (expired_at now d).shares))

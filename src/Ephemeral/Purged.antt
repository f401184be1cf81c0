-- ===== src/Ephemeral/Purged.antt =====
-- The purge when nothing fails: the loop of `cleanupEphemeral` ends, and what it leaves behind.
use bytevault.Prelude.{
  ℕ, zero, suc, min, ◌+◌, ◌*◌, ◌<◌, Bool, true, false, ◌&&◌, ◌||◌, some, List, [], ◌∷◌, ◌≡◌, ◌≢◌,
  inl, inr, refl, sym, subst, ap, ◌∙◌, arith, Bool-cases, ltb, All, All-take, length-take,
  length-map, length, take, map,
}
use bytevault.Prelude.Table.{find?, update, select, count_where}
use bytevault.Prelude.Table.Keys.{Distinct, Distinct-update, Distinct-take}
use bytevault.Prelude.Table.Counts.{
  length-select, All-select, All-selected, count_where-update, count_where-none, Distinct-select,
  found_by_key, count_where-update_key, find?-update_other,
}
use bytevault.Prelude.Action.{ok, ◌>>=◌}
use bytevault.Ephemeral.{Status, expired, Share, Db}
use bytevault.Ephemeral.Repository.{is_open, is_expired, is_burned, expire_past_due, storage_call}
use bytevault.Ephemeral.Purge.{
  Target, target, burned_before, is_purgeable, select_targets, clear_storage_key, clear_keys,
  purge_expired_and_burned, purge_objects, purge_batch, cleanup_ephemeral,
}
use bytevault.Ephemeral.Change.{has_id, with_status, clear}
use bytevault.Ephemeral.Answers.{reliable}

abbrev pub past_due : ℕ → Share → Bool
past_due now r = is_open r.status && ltb r.expires_at now

abbrev pub expired_at : ℕ → Db → Db
expired_at now d = record d { shares = update (past_due now) (with_status expired) d.shares }

abbrev cleared : List Share → Db → Db
cleared [] d = d
cleared (r ∷ rs) d = cleared rs (record d { shares = update (has_id r.id) clear d.shares })

abbrev pub batch : ℕ → Db → List Share
batch now d = take 100 (select (is_purgeable now) (expired_at now d).shares)

clear_keys-reliable :
    (now : ℕ) (rs : List Share) (d : Db)
    → clear_keys (map target rs) (reliable now d) ≡ (ok tt, reliable now (cleared rs d))
unfolding clear_keys clear_storage_key ◌>>=◌
clear_keys-reliable now [] d = refl
clear_keys-reliable now (r ∷ rs) d = clear_keys-reliable now rs _

pub purge-reliable :
    (now : ℕ) (d : Db)
    → purge_expired_and_burned (reliable now d)
      ≡ (ok (map target (batch now d)), reliable now (cleared (batch now d) (expired_at now d)))
unfolding purge_expired_and_burned expire_past_due select_targets ◌>>=◌
purge-reliable now d = rw (clear_keys-reliable now (batch now d) (expired_at now d))

-- A share that is expired goes on being purgeable, and one that is cleared does not.
expire-is_purgeable :
    (now : ℕ) (r : Share)
    → past_due now r ≡ true
    → is_purgeable now (with_status expired r) ≡ is_purgeable now r
expire-is_purgeable now r h = ap (λ b. ltb 0 r.storage_key && b) (same r.status h)
  where
    same :
        (st : Status)
        → (is_open st && ltb r.expires_at now) ≡ true
        → true ≡ (
            is_expired st
            || is_open st && ltb r.expires_at now
            || is_burned st && burned_before r.burned_at now)
    same st h = ground (arith, h)

-- One batch takes its rows out of the clause.
count-cleared :
    (now : ℕ) (rs : List Share) (d : Db)
    → Distinct (λ r. r.id) d.shares
    → Distinct (λ r. r.id) rs
    → All (λ r. find? (has_id r.id) d.shares ≡ some r) rs
    → All (λ r. is_purgeable now r ≡ true) rs
    → count_where (is_purgeable now) (cleared rs d).shares + length rs
      ≡ count_where (is_purgeable now) d.shares
count-cleared now [] d ids distinct found match = omega arith
count-cleared now (r ∷ rs) d ids distinct found match =
    let one_less =
      count_where-update_key (λ r. r.id) (is_purgeable now) clear d.shares r ids found.0 match.0
        refl in
    let ih =
      count-cleared now rs (record d { shares = update (has_id r.id) clear d.shares })
        (Distinct-update (λ r. r.id) _ clear d.shares (λ q. refl) ids) distinct.1
        (still rs distinct.0 found.1) match.1 in
    omega (arith, one_less, ih)
  where
    still :
        (qs : List Share)
        → All (λ q. q.id ≢ r.id) qs
        → All (λ q. find? (has_id q.id) d.shares ≡ some q) qs
        → All (λ q. find? (has_id q.id) (update (has_id r.id) clear d.shares) ≡ some q) qs
    still [] n f = tt
    still (q ∷ qs) n f = (
      find?-update_other (λ r. r.id) q.id r.id clear d.shares n.0 (λ x. refl) ∙ f.0,
      still qs n.1 f.1,
    )

purge_objects-reliable :
    (now : ℕ) (ts : List Target) (d : Db)
    → (d' : Db) × (purge_objects ts (reliable now d) ≡ (ok tt, reliable now d'))
      × (d'.shares ≡ d.shares)
unfolding purge_objects storage_call ◌>>=◌
purge_objects-reliable now [] d = (d, refl, refl)
purge_objects-reliable now (t ∷ ts) d = purge_objects-reliable now ts _

cleared-Distinct :
    (rs : List Share) (d : Db)
    → Distinct (λ r. r.id) d.shares
    → Distinct (λ r. r.id) (cleared rs d).shares
cleared-Distinct [] d ids = ids
cleared-Distinct (r ∷ rs) d ids =
    cleared-Distinct rs _ (Distinct-update (λ r. r.id) _ clear d.shares (λ q. refl) ids)

module _ (now : ℕ) (d : Db) (ids : Distinct (λ r. r.id) d.shares) where
  expired-Distinct : Distinct (λ r. r.id) (expired_at now d).shares
  expired-Distinct = Distinct-update (λ r. r.id) _ (with_status expired) d.shares (λ q. refl) ids

  expired-count :
      count_where (is_purgeable now) (expired_at now d).shares
      ≡ count_where (is_purgeable now) d.shares
  expired-count =
      count_where-update (is_purgeable now) _ (with_status expired) d.shares
        (expire-is_purgeable now)

  batch-length : length (batch now d) ≡ min 100 (count_where (is_purgeable now) d.shares)
  batch-length =
      length-take 100 (select (is_purgeable now) (expired_at now d).shares)
      ∙ ap (min 100) (length-select (is_purgeable now) (expired_at now d).shares ∙ expired-count)

  -- A batch leaves that many fewer.
  batch-count :
      count_where (is_purgeable now) (cleared (batch now d) (expired_at now d)).shares
        + min 100 (count_where (is_purgeable now) d.shares)
      ≡ count_where (is_purgeable now) d.shares
  batch-count =
      let left =
        count-cleared now (batch now d) (expired_at now d) expired-Distinct
          (Distinct-take (λ r. r.id) 100 _ (Distinct-select (λ r. r.id) _ _ expired-Distinct))
          (All-take _ 100 _ (All-select _ _ _ (found_by_key (λ r. r.id) _ expired-Distinct)))
          (All-take _ 100 _ (All-selected (is_purgeable now) (expired_at now d).shares)) in
      omega (arith, left, batch-length, expired-count)

-- When nothing fails and the ids of the shares are distinct, the purge loop ends after a round for each full
-- batch of 100 and one more, and then no share is left that its clause selects.
pub cleanup_ephemeral-ends :
    (rounds now : ℕ) (d : Db)
    → Distinct (λ r. r.id) d.shares
    → count_where (is_purgeable now) d.shares < 100 * rounds
    → let (answer, w) = cleanup_ephemeral rounds (reliable now d) in
      (answer ≡ ok true) × All (λ r. is_purgeable now r ≡ false) w.db.shares
unfolding cleanup_ephemeral purge_batch ◌>>=◌
cleanup_ephemeral-ends zero now d ids few = absurd (omega (arith, few))
cleanup_ephemeral-ends (suc rounds) now d ids few =
    let next = cleared (batch now d) (expired_at now d) in
    let (after, called, same) = purge_objects-reliable now (map target (batch now d)) next in
    let size = length-map target (batch now d) ∙ batch-length now d ids in
    let fewer = batch-count now d ids in
    elim (Bool-cases (ltb (length (map target (batch now d))) 100)) [
      | inl short ↦
          rw (purge-reliable now d, called, short)
            (
              refl,
              subst (All _) (sym same)
                  (count_where-none (is_purgeable now) next.shares (last _ _ _ size fewer short)),
            )
      | inr full ↦
          rw (purge-reliable now d, called, full)
            (cleanup_ephemeral-ends rounds now after
              (subst (Distinct _) (sym same)
                (cleared-Distinct (batch now d) _ (expired-Distinct now d ids)))
              (rw same (enough _ _ _ size fewer full few)))
    ]
  where
    last :
        (n before left : ℕ)
        → n ≡ min 100 before
        → left + min 100 before ≡ before
        → ltb n 100 ≡ true
        → left ≡ 0
    last n before left size fewer short = ground arith

    enough :
        (n before left : ℕ)
        → n ≡ min 100 before
        → left + min 100 before ≡ before
        → ltb n 100 ≡ false
        → before < 100 * suc rounds
        → left < 100 * rounds
    enough n before left size fewer full few = ground arith

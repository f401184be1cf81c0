-- ===== src/Ephemeral/Bounds.antt =====
-- How often a share is downloaded.
use bytevault.Prelude.{
  ℕ, suc, max, ◌+◌, ◌≤◌, ◌<◌, Bool, true, false, none, some, List, [], ◌∷◌, All, leb, ◌≡◌, inl, inr,
  refl, sym, subst, ◌∙◌, arith, All-imp,
}
use bytevault.Prelude.Table
use bytevault.Prelude.Table.{find?, update, All-update, All-delete, All-find?, update-update}
use bytevault.Prelude.Table.Keys.{
  Distinct, All-update_key, Distinct-update, Distinct-delete, find?-by_key, fresh-All,
}
use bytevault.Ephemeral.{Status, uploading, active, burned, Share, Db}
use bytevault.Ephemeral.Repository.{is_uploading, is_active, is_open, stored, count_download}
use bytevault.Ephemeral.Purge.{burned_or_expired}
use bytevault.Ephemeral.Calls.{Event, step, run}
use bytevault.Ephemeral.Change.{
  has_token, has_id, with_status, burn_at, Change, insert, remove, activate, burn, count,
  count_and_burn, expire, clear_key, Changes, start, next_change,
}
use bytevault.Ephemeral.RefinesPurge.{step-Changes}

-- A share with a limit of 0 counts as one with a limit of 1.
abbrev pub limit_of : Share → ℕ
limit_of r = max 1 r.max_downloads

-- A row within its limit: it has a download left if it may still be downloaded.
pub record Within (r : Share) : Type 0 where
  pub bounded : r.download_count ≤ limit_of r
  pub left : is_open r.status ≡ true → r.download_count < limit_of r

-- Unique tokens and ids, ids given once, and every share within its limit.
pub record IsWf (d : Db) : Type 0 where
  pub tokens : Distinct (λ r. r.token) d.shares
  pub ids : Distinct (λ r. r.id) d.shares
  pub below : All (λ r. r.id < d.next_id) d.shares
  pub within : All Within d.shares

update-IsWf :
    (d d' : Db) (q : Share → Bool) (f : Share → Share)
    → ((r : Share) → (f r).token ≡ r.token)
    → ((r : Share) → (f r).id ≡ r.id)
    → All Within (update q f d.shares)
    → d'.shares ≡ update q f d.shares
    → d'.next_id ≡ d.next_id
    → IsWf d
    → IsWf d'
update-IsWf d d' q f same_token same_id within e n wf = record {
  tokens = subst (Distinct _) (sym e) (Distinct-update _ q f d.shares same_token wf.tokens);
  ids = subst (Distinct _) (sym e) (Distinct-update _ q f d.shares same_id wf.ids);
  below = subst (All _) (sym e) (
      subst (λ k. All (λ r. r.id < k) (update q f d.shares)) (sym n)
        (All-update (λ r. r.id < d.next_id) q f d.shares (λ r h lt. rw (same_id r) lt) wf.below));
  within = subst (All Within) (sym e) within;
}

each-IsWf :
    (d d' : Db) (q : Share → Bool) (f : Share → Share)
    → ((r : Share) → (f r).token ≡ r.token)
    → ((r : Share) → (f r).id ≡ r.id)
    → ((r : Share) → q r ≡ true → Within r → Within (f r))
    → d'.shares ≡ update q f d.shares
    → d'.next_id ≡ d.next_id
    → IsWf d
    → IsWf d'
each-IsWf d d' q f same_token same_id keep e n wf =
    update-IsWf d d' q f same_token same_id (All-update Within q f d.shares keep wf.within) e n wf

shut-Within :
    (r r' : Share)
    → r'.download_count ≡ r.download_count
    → r'.max_downloads ≡ r.max_downloads
    → is_open r'.status ≡ false
    → Within r
    → Within r'
shut-Within r r' c m s w = record {
  bounded = rw (c, m) w.bounded;
  left = λ h. absurd (no (sym s ∙ h));
}
  where
    no : false ≡ true → ⊥
    no z = cc

-- Where nothing may fail, a change keeps the table well-formed.
module _ (now : ℕ) (d d' : Db) (wf : IsWf d) where
  insert-IsWf :
      (s : Share)
      → s.download_count ≡ 0
      → find? (has_token s.token) d.shares ≡ none
      → d'.shares ≡ stored s d.next_id now ∷ d.shares
      → d'.next_id ≡ suc d.next_id
      → IsWf d'
  insert-IsWf s z fresh e n = record {
    tokens =
        subst (Distinct _) (sym e) (fresh-All (λ r. r.token) s.token d.shares fresh, wf.tokens);
    ids =
        subst (Distinct _) (sym e)
          (All-imp (λ r lt same. absurd (omega (arith, lt, same))) d.shares wf.below, wf.ids);
    below = subst (All _) (sym e) (
        subst (λ k. All (λ r. r.id < k) (stored s d.next_id now ∷ d.shares)) (sym n)
          (omega arith, All-imp (λ r lt. omega arith) d.shares wf.below));
    within =
        subst (All Within) (sym e)
          (record { bounded = omega (arith, z); left = λ h. omega (arith, z) }, wf.within);
  }

  remove-IsWf :
      (q : Share → Bool) → d'.shares ≡ Table.delete q d.shares → d'.next_id ≡ d.next_id → IsWf d'
  remove-IsWf q e n = record {
    tokens = subst (Distinct _) (sym e) (Distinct-delete _ q d.shares wf.tokens);
    ids = subst (Distinct _) (sym e) (Distinct-delete _ q d.shares wf.ids);
    below = subst (All _) (sym e) (
        subst (λ k. All (λ r. r.id < k) (Table.delete q d.shares)) (sym n)
          (All-delete _ q d.shares wf.below));
    within = subst (All Within) (sym e) (All-delete _ q d.shares wf.within);
  }

  activate-IsWf :
      (token : ℕ) (s : Share)
      → find? (has_token token) d.shares ≡ some s
      → is_uploading s.status ≡ true
      → d'.shares ≡ update (has_token token) (with_status active) d.shares
      → d'.next_id ≡ d.next_id
      → IsWf d'
  activate-IsWf token s f up e n =
      update-IsWf d d' _ _ (λ r. refl) (λ r. refl)
        (All-update_key (λ r. r.token) Within token (with_status active) d.shares s wf.tokens f
          (record { bounded = w.bounded; left = λ h. w.left (open_of s.status up) }) wf.within)
        e n wf
    where
      w : Within s
      w = (All-find? Within (has_token token) d.shares s wf.within f).0

      open_of : (st : Status) → is_uploading st ≡ true → is_open st ≡ true
      open_of uploading u = refl
      open_of st u = ground arith

  count-IsWf :
      (token : ℕ) (s b : Share)
      → find? (has_token token) d.shares ≡ some s
      → find? (has_id s.id) d.shares ≡ some b
      → leb b.max_downloads (b.download_count + 1) ≡ false
      → d'.shares ≡ update (has_id s.id) count_download d.shares
      → d'.next_id ≡ d.next_id
      → IsWf d'
  count-IsWf token s b f g more e n =
      update-IsWf d d' _ _ (λ r. refl) (λ r. refl)
        (All-update_key (λ r. r.id) Within s.id count_download d.shares b wf.ids g
          (record { bounded = omega (arith, low); left = λ h. omega (arith, low) }) wf.within)
        e n wf
    where
      low : b.download_count + 1 < b.max_downloads
      low = ground arith

  count_and_burn-IsWf :
      (token : ℕ) (s b : Share)
      → find? (has_token token) d.shares ≡ some s
      → is_active s.status ≡ true
      → find? (has_id s.id) d.shares ≡ some b
      → d'.shares
        ≡ update (has_id s.id) (burn_at now) (update (has_id s.id) count_download d.shares)
      → d'.next_id ≡ d.next_id
      → IsWf d'
  count_and_burn-IsWf token s b f act g e n =
      update-IsWf d d' (has_id s.id) (λ r. burn_at now (count_download r)) (λ r. refl) (λ r. refl)
        (All-update_key (λ r. r.id) Within s.id (λ r. burn_at now (count_download r)) d.shares s
          wf.ids (find?-by_key (λ r. r.id) (has_token token) d.shares s wf.ids f)
          (record { bounded = omega (arith, room); left = λ h. absurd (no h) }) wf.within)
        (e ∙ update-update (has_id s.id) (burn_at now) count_download d.shares (λ r. refl)) n wf
    where
      open_of : (st : Status) → is_active st ≡ true → is_open st ≡ true
      open_of active u = refl
      open_of st u = ground arith

      room : s.download_count < limit_of s
      room =
          (All-find? Within (has_token token) d.shares s wf.within f).0.left (open_of s.status act)

      no : false ≡ true → ⊥
      no z = cc

  Change-IsWf : {lossy : Type 0} → (lossy → ⊥) → Change lossy now d d' → IsWf d'
  Change-IsWf sure (insert s z fresh e n) = insert-IsWf s z fresh e n
  Change-IsWf sure (remove t s f up e n) = remove-IsWf _ e n
  Change-IsWf sure (activate t s f up e n) = activate-IsWf t s f up e n
  Change-IsWf sure (burn t e n) =
      each-IsWf d d' _ _ (λ r. refl) (λ r. refl) (λ r h w. shut-Within r _ refl refl refl w) e n wf
  Change-IsWf sure (count t s b f a g (inl more) e n) = count-IsWf t s b f g more e n
  Change-IsWf sure (count t s b f a g (inr lost) e n) = absurd (sure lost)
  Change-IsWf sure (count_and_burn t s b f a g l e n) = count_and_burn-IsWf t s b f a g e n
  Change-IsWf sure (expire e n) =
      each-IsWf d d' _ _ (λ r. refl) (λ r. refl) (λ r h w. shut-Within r _ refl refl refl w) e n wf
  Change-IsWf sure (clear_key i e n) =
      each-IsWf d d' _ _ (λ r. refl) (λ r. refl)
        (λ r h w. shut-Within r _ refl refl (shut_status r.status) w) e n wf
    where
      shut_status : (st : Status) → is_open (burned_or_expired st) ≡ false
      shut_status burned = refl
      shut_status _ = refl

Changes-IsWf :
    {lossy : Type 0} {now : ℕ} {d d' : Db} → (lossy → ⊥) → Changes lossy now d d' → IsWf d → IsWf d'
Changes-IsWf {d} sure (start e n) wf = record {
  tokens = subst (Distinct _) (sym e) wf.tokens;
  ids = subst (Distinct _) (sym e) wf.ids;
  below =
      subst (All _) (sym e) (subst (λ k. All (λ (r : Share). r.id < k) d.shares) (sym n) wf.below);
  within = subst (All Within) (sym e) wf.within;
}
Changes-IsWf sure (next_change cs c) wf = Change-IsWf _ _ _ (Changes-IsWf sure cs wf) sure c

-- No query and no call fails during these calls.
abbrev pub Reliable : List Event → Type 0
Reliable = All (λ e. e.faults ≡ [])

-- When nothing fails, any history of whole calls keeps the table well-formed: the tokens and the ids
-- stay unique, no share is counted beyond its limit, and one that may still be downloaded is below it.
pub run-IsWf : (d : Db) (es : List Event) → Reliable es → IsWf d → IsWf (run d es)
unfolding run
run-IsWf d [] h wf = wf
run-IsWf d (e ∷ es) h wf =
    run-IsWf (step e d) es h.1 (Changes-IsWf (λ lost. lost h.0) (step-Changes e d) wf)

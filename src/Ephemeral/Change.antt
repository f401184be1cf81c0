-- ===== src/Ephemeral/Change.antt =====
-- What may happen to the table of shares: the edges of its state machine. Refines shows that the
-- methods of the service follow them, under any failures.
use bytevault.Prelude.{
  ℕ, suc, ◌+◌, Bool, true, false, ◌&&◌, none, some, [], ◌∷◌, ltb, leb, ◌==◌, ◌≡◌, ◌≢◌, ◌⊎◌, refl,
  ◌∙◌,
}
use bytevault.Prelude.Table.{find?, update}
use bytevault.Prelude.Table
use bytevault.Prelude.Action.{World}
use bytevault.Prelude.Action.Leads.{Leads}
use bytevault.Ephemeral.{Status, burned, active, expired, Share, Db, Service}
use bytevault.Ephemeral.Repository.{is_uploading, is_active, is_open, stored, count_download}
use bytevault.Ephemeral.Purge.{burned_or_expired}

abbrev pub has_token : ℕ → Share → Bool
has_token token r = r.token == token

abbrev pub has_id : ℕ → Share → Bool
has_id id r = r.id == id

abbrev pub with_status : Status → Share → Share
with_status status r = record r { status = status }

abbrev pub burn_at : ℕ → Share → Share
burn_at now r = record r { status = burned; burned_at = some now }

abbrev pub clear : Share → Share
clear r = record r { storage_key = 0; status = burned_or_expired r.status }

-- One write at time `now`. `lossy` is the permission to count a last download without burning.
pub data Change (lossy : Type 0) (now : ℕ) (d d' : Db) : Type 0 where
  insert :
      (s : Share)
      → s.download_count ≡ 0
      → find? (has_token s.token) d.shares ≡ none
      → d'.shares ≡ stored s d.next_id now ∷ d.shares
      → d'.next_id ≡ suc d.next_id
      → Change lossy now d d'
  remove :
      (token : ℕ) (s : Share)
      → find? (has_token token) d.shares ≡ some s
      → is_uploading s.status ≡ true
      → d'.shares ≡ Table.delete (has_token token) d.shares
      → d'.next_id ≡ d.next_id
      → Change lossy now d d'
  activate :
      (token : ℕ) (s : Share)
      → find? (has_token token) d.shares ≡ some s
      → is_uploading s.status ≡ true
      → d'.shares ≡ update (has_token token) (with_status active) d.shares
      → d'.next_id ≡ d.next_id
      → Change lossy now d d'
  burn :
      (token : ℕ)
      → d'.shares ≡ update (has_token token) (with_status burned) d.shares
      → d'.next_id ≡ d.next_id
      → Change lossy now d d'
  count :
      (token : ℕ) (s b : Share)
      → find? (has_token token) d.shares ≡ some s
      → is_active s.status ≡ true
      → find? (has_id s.id) d.shares ≡ some b
      → (leb b.max_downloads (b.download_count + 1) ≡ false) ⊎ lossy
      → d'.shares ≡ update (has_id s.id) count_download d.shares
      → d'.next_id ≡ d.next_id
      → Change lossy now d d'
  count_and_burn :
      (token : ℕ) (s b : Share)
      → find? (has_token token) d.shares ≡ some s
      → is_active s.status ≡ true
      → find? (has_id s.id) d.shares ≡ some b
      → leb b.max_downloads (b.download_count + 1) ≡ true
      → d'.shares
        ≡ update (has_id s.id) (burn_at now) (update (has_id s.id) count_download d.shares)
      → d'.next_id ≡ d.next_id
      → Change lossy now d d'
  expire :
      d'.shares
        ≡ update (λ r. is_open r.status && ltb r.expires_at now) (with_status expired) d.shares
      → d'.next_id ≡ d.next_id
      → Change lossy now d d'
  clear_key :
      (id : ℕ)
      → d'.shares ≡ update (has_id id) clear d.shares
      → d'.next_id ≡ d.next_id
      → Change lossy now d d'

pub data Changes (lossy : Type 0) (now : ℕ) (d : Db) : Db → Type 0 where
  start : {d' : Db} → d'.shares ≡ d.shares → d'.next_id ≡ d.next_id → Changes lossy now d d'
  next_change : {e d' : Db} → Changes lossy now d e → Change lossy now e d' → Changes lossy now d d'

pub one : {lossy : Type 0} {now : ℕ} {d d' : Db} → Change lossy now d d' → Changes lossy now d d'
one {d} c = next_change (start {d' = d} refl refl) c

-- The rest of the state is free.
pub Change-same :
    {lossy : Type 0} {now : ℕ} {d e e' : Db}
    → Change lossy now d e
    → e'.shares ≡ e.shares
    → e'.next_id ≡ e.next_id
    → Change lossy now d e'
Change-same (insert s c f p q) hs hn = insert s c f (hs ∙ p) (hn ∙ q)
Change-same (remove t s f u p q) hs hn = remove t s f u (hs ∙ p) (hn ∙ q)
Change-same (activate t s f u p q) hs hn = activate t s f u (hs ∙ p) (hn ∙ q)
Change-same (burn t p q) hs hn = burn t (hs ∙ p) (hn ∙ q)
Change-same (count t s b f a g l p q) hs hn = count t s b f a g l (hs ∙ p) (hn ∙ q)
Change-same (count_and_burn t s b f a g l p q) hs hn =
    count_and_burn t s b f a g l (hs ∙ p) (hn ∙ q)
Change-same (expire p q) hs hn = expire (hs ∙ p) (hn ∙ q)
Change-same (clear_key i p q) hs hn = clear_key i (hs ∙ p) (hn ∙ q)

pub Changes-same :
    {lossy : Type 0} {now : ℕ} {d e e' : Db}
    → Changes lossy now d e
    → e'.shares ≡ e.shares
    → e'.next_id ≡ e.next_id
    → Changes lossy now d e'
Changes-same (start p q) hs hn = start (hs ∙ p) (hn ∙ q)
Changes-same (next_change c ch) hs hn = next_change c (Change-same ch hs hn)

-- An action that writes no share, neither turns the clock nor brings in failures.
pub record Quiet {A : Type 0} (m : Service A) : Type 0 where
  pub shares : (w : World Db) → (m w).1.db.shares ≡ w.db.shares
  pub next_id : (w : World Db) → (m w).1.db.next_id ≡ w.db.next_id
  pub now : (w : World Db) → (m w).1.now ≡ w.now
  pub faults : (w : World Db) → w.faults ≡ [] → (m w).1.faults ≡ []

-- From a given start: no share written yet; and written along the edges.
module _ (start_ : World Db) where
  pub record Untouched (w : World Db) : Type 0 where
    pub shares : w.db.shares ≡ start_.db.shares
    pub next_id : w.db.next_id ≡ start_.db.next_id
    pub now : w.now ≡ start_.now
    pub faults : start_.faults ≡ [] → w.faults ≡ []

  pub record Evolved (w : World Db) : Type 0 where
    pub changes : Changes (start_.faults ≢ []) start_.now start_.db w.db
    pub now : w.now ≡ start_.now
    pub faults : start_.faults ≡ [] → w.faults ≡ []

  pub Untouched-Evolved : (w : World Db) → Untouched w → Evolved w
  Untouched-Evolved w u = record {
    changes = start u.shares u.next_id;
    now = u.now;
    faults = u.faults;
  }

  pub Quiet-Untouched : {A : Type 0} (m : Service A) → Quiet m → Leads Untouched Untouched m
  Quiet-Untouched m q = record {
    at = λ w u. record {
      shares = q.shares w ∙ u.shares;
      next_id = q.next_id w ∙ u.next_id;
      now = q.now w ∙ u.now;
      faults = λ h. q.faults w (u.faults h);
    };
  }

  pub Quiet-Evolved : {A : Type 0} (m : Service A) → Quiet m → Leads Evolved Evolved m
  Quiet-Evolved m q = record {
    at = λ w u. record {
      changes = Changes-same u.changes (q.shares w) (q.next_id w);
      now = q.now w ∙ u.now;
      faults = λ h. q.faults w (u.faults h);
    };
  }

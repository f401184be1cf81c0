-- ===== src/Ephemeral/RefinesDownload.antt =====
-- The download follows the edges of the state machine, whatever fails on the way.
use bytevault.Prelude.{
  ℕ, ◌+◌, ◌*◌, Bool, true, false, Option, none, some, List, [], ◌∷◌, leb, ◌≡◌, ◌≢◌, ◌⊎◌, inl, inr,
  refl, sym, subst, ap, ap₂, ◌∙◌,
}
use bytevault.Prelude.Table.{find?, update, update-none}
use bytevault.Prelude.Action.{
  World, Result, ok, err, pure, raise, query, ignore, next_fault, settle, continue, or_raise, ◌>>=◌,
  ◌>>◌,
}
use bytevault.Prelude.Action.Leads.{
  Leads, Leads-then, Leads-ignore, Leads-Ends, After, Ends, Ends-bind, Ends-Leads, Ends-require,
}
use bytevault.Ephemeral.{
  Share, Url, Db, Error, query_failed, oversize, storage_failed, delete, get_object, minute,
  Service, Env, burned,
}
use bytevault.Ephemeral.Repository.{
  is_active, count_download, find_by_token, increment_download_and_check_burn, mark_burned,
  burn_row, count_row, burn_test, presign, storage_call, update_status,
}
use bytevault.Ephemeral.Download.{
  check_download, remove_oversize, burn_if, serve_download, request_download,
}
use bytevault.Ephemeral.Change.{
  has_token, has_id, burn_at, count, count_and_burn, one, start, Quiet, Untouched, Evolved,
  Untouched-Evolved, Quiet-Untouched, Quiet-Evolved,
}
use bytevault.Ephemeral.Quiet.{
  Quiet-gets, Quiet-require, Quiet-storage_call, Quiet-ignore, Quiet-pure, Quiet-read, Quiet-bind,
  Quiet-raise, Quiet-query,
}
use bytevault.Ephemeral.Quiet.Methods.{Quiet-find_by_token}
use bytevault.Ephemeral.Refines.{Follows, burn-Follows, found_result, bind-Follows, then-Follows}

next_fault-true : (fs : List Bool) → (next_fault fs).0 ≡ true → fs ≢ []
next_fault-true [] h = cc
next_fault-true (b ∷ bs) h = λ e. cc

module _ (s : World Db) where
  abbrev Checked : ℕ → Share → World Db → Type 0
  Checked token r w =
      Untouched s w × (find? (has_token token) s.db.shares ≡ some r) × (is_active r.status ≡ true)

  bind-Ends :
      {A B : Type 0} {R : B → World Db → Type 0} (m : Service A) (f : A → Service B)
      → Quiet m
      → ((a : A) → Ends (Untouched s) (Evolved s) R (f a))
      → Ends (Untouched s) (Evolved s) R (m >>= f)
  bind-Ends m f q h = Ends-bind m f (Ends-Leads m (Untouched-Evolved s) (Quiet-Untouched s m q)) h

  remove_oversize-Ends :
      (token : ℕ) (r : Share) (b : Bool)
      → find? (has_token token) s.db.shares ≡ some r
      → is_active r.status ≡ true
      → Ends (Untouched s) (Evolved s) (Checked token) (remove_oversize r b)
  unfolding remove_oversize ◌>>=◌
  remove_oversize-Ends token r false e a = record { at = λ w u. (u, e, a) }
  remove_oversize-Ends token r true e a = record { at = burning.at }
    where
      burning : Follows s (remove_oversize r true)
      burning =
          bind-Follows s (ignore (storage_call (delete r.storage_key))) _
            (Quiet-ignore _ (Quiet-storage_call _))
            λ _.
              then-Follows s (ignore (update_status r.token burned)) (λ _. raise oversize)
                (Leads-ignore _ (burn-Follows s r.token)) λ _. Quiet-raise oversize

  find-Ends :
      {A : Type 0} {R : A → World Db → Type 0} (token : ℕ) (f : Share → Service A)
      → ((r : Share)
          → find? (has_token token) s.db.shares ≡ some r
          → Ends (Untouched s) (Evolved s) R (f r))
      → Ends (Untouched s) (Evolved s) R (find_by_token token >>= f)
  find-Ends token f h =
      Ends-bind {R = λ r w. Untouched s w × (find? (has_token token) s.db.shares ≡ some r)} _ f
        (record { at = λ w u. read w u (find_by_token token w) refl })
        λ r. record { at = λ w k. (h r k.1).at w k.0 }
    where
      read :
          (w : World Db)
          → Untouched s w
          → (x : Result Error Share × World Db) → find_by_token token w ≡ x
          → After
              (Evolved s)
              (λ r v. Untouched s v × (find? (has_token token) s.db.shares ≡ some r))
              x
      read w u (ok r, v) g = (
        subst (Untouched s) (ap (λ x. x.1) g)
            ((Quiet-Untouched s _ (Quiet-find_by_token token)).at w u),
        ap (find? (has_token token)) (sym u.shares) ∙ found_result s token w r (ap (λ x. x.0) g),
      )
      read w u (err x, v) g =
          subst (Evolved s) (ap (λ x. x.1) g)
            (Untouched-Evolved s _ ((Quiet-Untouched s _ (Quiet-find_by_token token)).at w u))

  check_download-Ends :
      (env : Env) (token : ℕ) (password : Option ℕ)
      → Ends (Untouched s) (Evolved s) (Checked token) (check_download env token password)
  unfolding check_download
  check_download-Ends env token password = find-Ends token _ λ r e.
      bind-Ends _ _ (Quiet-gets _) λ now. bind-Ends _ _ (Quiet-require _ _) λ _.
        Ends-require _ _ _ (Untouched-Evolved s) λ a.
          bind-Ends _ _ (Quiet-require _ _)
            λ _. bind-Ends _ _ (Quiet-read _ _) λ size. remove_oversize-Ends token r _ e a

  -- The table with the download counted, before it is decided whether the share burns.
  record Counted (r : Share) (w : World Db) : Type 0 where
    shares : w.db.shares ≡ update (has_id r.id) count_download s.db.shares
    next_id : w.db.next_id ≡ s.db.next_id
    now : w.now ≡ s.now
    faults : s.faults ≡ [] → w.faults ≡ []

  module _ (token : ℕ) (r b : Share) (e : find? (has_token token) s.db.shares ≡ some r)
      (a : is_active r.status ≡ true) (eb : find? (has_id r.id) s.db.shares ≡ some b) where
    Counted-Evolved :
        (leb b.max_downloads (b.download_count + 1) ≡ false) ⊎ (s.faults ≢ [])
        → (w : World Db) → Counted r w
        → Evolved s w
    Counted-Evolved h w c = record {
      changes = one (count token r b e a eb h c.shares c.next_id);
      now = c.now;
      faults = c.faults;
    }

    -- The share is burned, or the failure of the UPDATE is ignored.
    mark_burned-Leads :
        leb b.max_downloads (b.download_count + 1) ≡ true
        → Leads (Counted r) (Evolved s) (mark_burned r.id)
    unfolding mark_burned ◌>>=◌
    mark_burned-Leads full = record {
      at = λ w c.
          go w c (next_fault w.faults).0 (next_fault w.faults).1 (next_fault-true w.faults)
            (λ g. ap (λ l. (next_fault l).1) g);
    }
      where
        go :
            (w : World Db)
            → Counted r w
            → (x : Bool) (bs : List Bool) → (x ≡ true → w.faults ≢ [])
            → (w.faults ≡ [] → bs ≡ [])
            → Evolved s (settle x query_failed bs w (burn_row r.id w.now w.db)).1
        go w c true bs bad clean =
            Counted-Evolved (inr (λ g. bad refl (c.faults g))) (record w { faults = bs })
              (record {
                shares = c.shares;
                next_id = c.next_id;
                now = c.now;
                faults = λ g. clean (c.faults g);
              })
        go w c false bs bad clean = record {
          changes = one (
              count_and_burn token r b e a eb full
                (ap₂ (λ n rs. update (has_id r.id) (burn_at n) rs) c.now c.shares) c.next_id);
          now = c.now;
          faults = λ g. clean (c.faults g);
        }

    burn_if-Leads :
        (burns : Bool)
        → burns ≡ leb b.max_downloads (b.download_count + 1)
        → Leads (Counted r) (Evolved s) (burn_if r burns)
    unfolding burn_if pure
    burn_if-Leads false h = record { at = Counted-Evolved (inl (sym h)) }
    burn_if-Leads true h =
        Leads-then _ _ (Leads-ignore _ (mark_burned-Leads (sym h)))
          λ _. Quiet-Evolved s _ (Quiet-ignore _ (Quiet-storage_call _))

    presign-Ends : (u : Url) → Ends (Counted r) (Evolved s) (λ url. Counted r) (presign u)
    unfolding presign ◌>>=◌
    presign-Ends u = record {
      at = λ w c.
          go w c (next_fault w.faults).0 (next_fault w.faults).1 (next_fault-true w.faults)
            (λ g. ap (λ l. (next_fault l).1) g);
    }
      where
        go :
            (w : World Db)
            → Counted r w
            → (x : Bool) (bs : List Bool) → (x ≡ true → w.faults ≢ [])
            → (w.faults ≡ [] → bs ≡ [])
            → After (Evolved s) (λ url. Counted r) (settle x storage_failed bs w (u, w.db))
        go w c true bs bad clean =
            Counted-Evolved (inr (λ g. bad refl (c.faults g))) (record w { faults = bs })
              (record {
                shares = c.shares;
                next_id = c.next_id;
                now = c.now;
                faults = λ g. clean (c.faults g);
              })
        go w c false bs bad clean = record {
          shares = c.shares;
          next_id = c.next_id;
          now = c.now;
          faults = λ g. clean (c.faults g);
        }

    -- Once the download is counted.
    rest-Leads :
        (burns : Bool)
        → burns ≡ leb b.max_downloads (b.download_count + 1)
        → Leads (Counted r) (Evolved s) (
            presign (get_object r.storage_key (30 * minute)) >>= λ url.
            burn_if r burns
            >> (ignore (
                  query query_failed
                    (λ t d. (tt, record d { egress = (r.id, r.file_size) ∷ d.egress })))
                >> pure url))
    rest-Leads burns h = Leads-Ends _ _ (presign-Ends _) λ url.
        Leads-then _ _ (burn_if-Leads burns h) λ _. Quiet-Evolved s _ (
          Quiet-bind _ _ (Quiet-ignore _ (Quiet-query _ _ (λ n d. refl) (λ n d. refl)))
            λ _. Quiet-pure url)

  -- The download is counted, on the row that the id selects.
  abbrev Incremented : ℕ → Share → ℕ × Bool → World Db → Type 0
  Incremented token r c w =
      (b : Share) × (find? (has_id r.id) s.db.shares ≡ some b)
      × (c.1 ≡ leb b.max_downloads (b.download_count + 1))
      × Counted r w
      × (find? (has_token token) s.db.shares ≡ some r)
      × (is_active r.status ≡ true)

  increment-Ends :
      (token : ℕ) (r : Share)
      → Ends
          (Checked token r)
          (Evolved s)
          (Incremented token r)
          (increment_download_and_check_burn r.id)
  unfolding increment_download_and_check_burn ◌>>=◌
  increment-Ends token r = record {
    at = λ w c.
        go w c (next_fault w.faults).0 (next_fault w.faults).1 (λ g. ap (λ l. (next_fault l).1) g)
          (find? (has_id r.id) w.db.shares) refl;
  }
    where
      go :
          (w : World Db)
          → Checked token r w
          → (x : Bool) (bs : List Bool) → (w.faults ≡ [] → bs ≡ [])
          → (o : Option Share) → find? (has_id r.id) w.db.shares ≡ o
          → let (a, v) = settle x query_failed bs w (o, (count_row r.id w.now w.db).1) in
            After (Evolved s) (Incremented token r) (
              continue a (λ row. or_raise row query_failed >>= λ before. pure (burn_test before)) v)
      go w (u, e, a) true bs clean o g = record {
        changes = start u.shares u.next_id;
        now = u.now;
        faults = λ h. clean (u.faults h);
      }
      go w (u, e, a) false bs clean none g = record {
        changes = start (update-none _ _ _ g ∙ u.shares) u.next_id;
        now = u.now;
        faults = λ h. clean (u.faults h);
      }
      go w (u, e, a) false bs clean (some b) g = (
        b,
        ap (find? (has_id r.id)) (sym u.shares) ∙ g,
        refl,
        record {
          shares = ap (update (has_id r.id) count_download) u.shares;
          next_id = u.next_id;
          now = u.now;
          faults = λ h. clean (u.faults h);
        },
        e,
        a,
      )

  serve-Leads : (token : ℕ) (r : Share) → Leads (Checked token r) (Evolved s) (serve_download r)
  unfolding serve_download
  serve-Leads token r = Leads-Ends _ _ (increment-Ends token r) λ c. record {
    at = λ w (b, eb, h, counted, e, a). (rest-Leads token r b e a eb c.1 h).at w counted;
  }

  pub request_download-Follows :
      (env : Env) (token : ℕ) (password : Option ℕ)
      → Follows s (request_download env token password)
  unfolding request_download
  request_download-Follows env token password =
      Leads-Ends _ _ (check_download-Ends env token password) (serve-Leads token)

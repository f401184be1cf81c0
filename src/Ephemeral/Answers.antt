-- ===== src/Ephemeral/Answers.antt =====
-- What an answer of the service says of the state that it was given.
use bytevault.Prelude.{
  ℕ, ◌*◌, ◌≤◌, Bool, true, false, not, Option, some, [], ◌≡◌, inl, inr, refl, sym, subst, ◌∙◌,
  arith, Bool-cases, leb, ◌+◌, ==_refl,
}
use bytevault.Prelude.Table.{find?, find?-also}
use bytevault.Prelude.Action.{World, ok, ◌>>=◌}
use bytevault.Prelude.Action.{gets, pure}
use bytevault.Prelude.Action.Answers.{bind-ok, require-ok, query-ok}
use bytevault.Ephemeral.{Status, Share, Url, get_object, Db, Error, Env, minute}
use bytevault.Ephemeral.Repository.{
  is_active, is_burned, find_by_token, presign, storage_call, mark_burned,
  increment_download_and_check_burn,
}
use bytevault.Ephemeral.Upload.{is_oversize}
use bytevault.Ephemeral.Download.{
  is_gone_at, password_ok, remove_oversize, burn_if, check_download, serve_download,
  request_download,
}
use bytevault.Ephemeral.Quiet.Methods.{Quiet-find_by_token}
use bytevault.Ephemeral.Refines.{found_result}
use bytevault.Ephemeral.Change.{has_token, has_id}

-- What a download needs.
pub record IsServable (env : Env) (password : Option ℕ) (now : ℕ) (s : Share) : Type 0 where
  pub active : is_active s.status ≡ true
  pub in_time : now ≤ s.expires_at
  pub admitted : password_ok env s.password_hash password ≡ true
  pub fits : is_oversize s (env.object_size s.storage_key) ≡ false

kept :
    (r : Share) (b : Bool) (w : World Db) (s : Share)
    → (remove_oversize r b w).0 ≡ ok s
    → (r ≡ s) × (b ≡ false)
unfolding remove_oversize ◌>>=◌
kept r true w s h = cc
kept r false w s h = (cc, refl)

module _ (env : Env) (token : ℕ) (password : Option ℕ) (w : World Db) where
  -- A check that passes, whatever else fails.
  pub check-IsServable :
      (s : Share)
      → (check_download env token password w).0 ≡ ok s
      → (find? (has_token token) w.db.shares ≡ some s) × IsServable env password w.now s
  unfolding check_download gets
  check-IsServable s h = bind-ok _ _ w s h λ r found h1. bind-ok _ _ _ s h1 λ now at h2.
      require-ok _ _ _ _ s h2 λ here h3. require-ok _ _ _ _ s h3 λ act h4.
        require-ok _ _ _ _ s h4 λ admit h5. bind-ok _ _ _ s h5 λ size read h6.
          let (same, fits) = kept r (is_oversize r size) _ s h6 in
          subst
            (λ x. (find? (has_token token) w.db.shares ≡ some x) × IsServable env password w.now x)
            same
            (
              found_result w token w r found,
              record {
                active = act;
                in_time = in_time r now here (clock now at);
                admitted = admit;
                fits = subst (λ n. is_oversize r n ≡ false) (sym (query-ok _ _ _ size read)) fits;
              },
            )
    where
      clock :
          (now : ℕ)
          → (gets {E = Error} {D = Db} (λ t d. t) (find_by_token token w).1).0 ≡ ok now
          → now ≡ w.now
      clock now at =
          let same : (find_by_token token w).1.now ≡ now = cc in
          sym same ∙ (Quiet-find_by_token token).now w

      in_time :
          (r : Share) (now : ℕ) → not (is_gone_at r now) ≡ true → now ≡ w.now → w.now ≤ r.expires_at
      in_time r now here at = ground arith

-- The state when nothing fails.
abbrev pub reliable : ℕ → Db → World Db
reliable now d = record { now = now; faults = []; db = d }

module _ (env : Env) (token : ℕ) (password : Option ℕ) (now : ℕ) (d : Db) (s : Share) where
  not_gone : (st : Status) → is_active st ≡ true → is_burned st ≡ false
  not_gone st h = ground arith

  here : IsServable env password now s → is_gone_at s now ≡ false
  here v = ground (arith, not_gone s.status v.active, v.in_time)

  -- The checks of a download pass a servable share and change nothing.
  pub check_servable :
      find? (has_token token) d.shares ≡ some s
      → IsServable env password now s
      → check_download env token password (reliable now d) ≡ (ok s, reliable now d)
  unfolding check_download find_by_token remove_oversize ◌>>=◌
  check_servable found v = rw (found, here v, v.active, v.admitted, v.fits)

-- A row that was read and is still there is served, whatever became of it since.
pub serve_present :
    (now : ℕ) (d : Db) (s b : Share)
    → find? (has_id s.id) d.shares ≡ some b
    → (serve_download s (reliable now d)).0 ≡ ok (get_object s.storage_key (30 * minute))
unfolding serve_download increment_download_and_check_burn presign burn_if mark_burned storage_call
    ◌>>=◌
serve_present now d s b found = elim (Bool-cases (leb b.max_downloads (b.download_count + 1))) [
  | inl e ↦ rw (found, e)
  | inr e ↦ rw (found, e)
]

served :
    (s : Share) (w : World Db) (u : Url)
    → (serve_download s w).0 ≡ ok u
    → u ≡ get_object s.storage_key (30 * minute)
unfolding serve_download presign pure
served s w u h = bind-ok _ _ w u h λ counted _ h1. bind-ok _ _ _ u h1 λ url made h2.
    bind-ok _ _ _ u h2 λ _ _ h3.
      bind-ok _ _ _ u h3
        λ _ _ h4. let same : url ≡ u = cc in sym same ∙ sym (query-ok _ _ _ url made)

-- A download that is answered with a URL, whatever fails on the way, is of a share that exists, is
-- active, has not expired, opens with the password given and has a stored object of allowed size; the
-- URL reads that object for half an hour.
pub download-IsServable :
    (env : Env) (token : ℕ) (password : Option ℕ) (w : World Db) (u : Url)
    → (request_download env token password w).0 ≡ ok u
    → (s : Share) × (find? (has_token token) w.db.shares ≡ some s)
      × IsServable env password w.now s
      × (u ≡ get_object s.storage_key (30 * minute))
unfolding request_download
download-IsServable env token password w u h = bind-ok _ _ w u h λ s checked h1.
    let (found, v) = check-IsServable env token password w s checked in
    (s, found, v, served s _ u h1)

-- When nothing fails, a share that exists and meets these conditions is served.
pub servable-download :
    (env : Env) (token : ℕ) (password : Option ℕ) (now : ℕ) (d : Db) (s : Share)
    → find? (has_token token) d.shares ≡ some s
    → IsServable env password now s
    → (request_download env token password (reliable now d)).0
      ≡ ok (get_object s.storage_key (30 * minute))
unfolding request_download ◌>>=◌
servable-download env token password now d s found v =
    let (b, present) = find?-also (has_token token) (has_id s.id) d.shares s found (==_refl s.id) in
    rw (check_servable env token password now d s found v) (serve_present now d s b present)

-- ===== src/Ephemeral/Refines.antt =====
-- The methods of the service follow the edges of the state machine, whatever fails on the way.
use bytevault.Prelude.{
  ℕ, Bool, true, false, Option, none, some, [], ◌≡◌, ◌≢◌, ◌⊎◌, inr, refl, sym, ap, ◌∙◌, arith,
}
use bytevault.Prelude.Table.{find?}
use bytevault.Prelude.Action.{World, ok, query, require, ◌>>=◌, ◌>>◌}
use bytevault.Prelude.Action.Leads.{
  Leads, Leads-attempt, Leads-ignore, Leads-bind, Leads-bind_result, Leads-then, Leads-require,
}
use bytevault.Ephemeral.{
  Status, burned, active, uploading, Share, Settings, Db, Error, Service, Env,
}
use bytevault.Ephemeral.Repository.{
  is_uploading, create, find_by_token, update_status, delete_by_token,
}
use bytevault.Ephemeral.Upload.{
  Request, new_share, create_upload_session, create_multipart_upload_session, settle_upload,
  is_open_at, complete_multipart_upload, abort_multipart_upload,
}
use bytevault.Ephemeral.Download.{admin_burn_share}
use bytevault.Ephemeral.Change.{
  has_token, Change, remove, activate, burn, Quiet, Untouched, Evolved, Untouched-Evolved,
  Quiet-Untouched, Quiet-Evolved,
}
use bytevault.Ephemeral.Quiet.{
  Quiet-pure, Quiet-gets, Quiet-require, Quiet-storage_call, Quiet-forget_progress, Quiet-presign,
  Quiet-ignore, Quiet-read, Quiet-bind, Quiet-raise, Quiet-when,
}
use bytevault.Ephemeral.Quiet.Methods.{
  Quiet-find_by_token, Quiet-get_settings, Quiet-check_rate, Quiet-part_urls,
  Quiet-abort_on_failure,
}
use bytevault.Ephemeral.Writes.{Wrote, Evolved-Wrote, SameTable, query-Wrote, create-Wrote}

module _ (s : World Db) where
  abbrev pub Follows : {A : Type 0} → Service A → Type 0
  Follows m = Leads (Untouched s) (Evolved s) m

  -- Up to the first write.
  pub bind-Follows :
      {A B : Type 0} (m : Service A) (f : A → Service B)
      → Quiet m
      → ((a : A) → Follows (f a))
      → Follows (m >>= f)
  bind-Follows m f q h = Leads-bind (Untouched-Evolved s) m f (Quiet-Untouched s m q) h

  Wrote-Follows :
      {A : Type 0} (m : Service A) → ((w : World Db) → Untouched s w → Wrote w (m w).1) → Follows m
  Wrote-Follows m h = record { at = λ w u. Evolved-Wrote s w _ (Untouched-Evolved s w u) (h w u) }

  -- From the write on.
  pub then-Follows :
      {A B : Type 0} (m : Service A) (f : A → Service B)
      → Follows m
      → ((a : A) → Quiet (f a))
      → Follows (m >>= f)
  then-Follows m f h q = Leads-then m f h (λ a. Quiet-Evolved s _ (q a))

  pub Quiet-Follows : {A : Type 0} (m : Service A) → Quiet m → Follows m
  Quiet-Follows m q = record { at = λ w u. Untouched-Evolved s _ ((Quiet-Untouched s m q).at w u) }

  create-Follows : (r : Share) → r.download_count ≡ 0 → Follows (create r)
  create-Follows r z = Wrote-Follows _ (λ w u. create-Wrote r w z)

  new_share-zero :
      (env : Env) (c : Settings) (now : ℕ) (r : Request) (u : Option ℕ) (st : Status) (live : Bool)
      → (new_share env c now r u st live).download_count ≡ 0
  unfolding new_share
  new_share-zero env c now r u st live = refl

  pub create_upload_session-Follows :
      (env : Env) (r : Request) → Follows (create_upload_session env r)
  unfolding create_upload_session
  create_upload_session-Follows env r = bind-Follows _ _ Quiet-get_settings λ c.
      bind-Follows _ _ (Quiet-require _ _) λ _. bind-Follows _ _ (Quiet-check_rate _ _) λ _.
        bind-Follows _ _ (Quiet-presign _) λ url. bind-Follows _ _ (Quiet-gets _) λ now.
          then-Follows _ _ (create-Follows _ (new_share-zero env c now r none active false))
            (λ x. Quiet-pure _)

  pub create_multipart-Follows :
      (env : Env) (r : Request) (n : ℕ) (live : Bool)
      → Follows (create_multipart_upload_session env r n live)
  unfolding create_multipart_upload_session
  create_multipart-Follows env r n live = bind-Follows _ _ Quiet-get_settings λ c.
      bind-Follows _ _ (Quiet-require _ _) λ _. bind-Follows _ _ (Quiet-check_rate _ _) λ _.
        bind-Follows _ _ (Quiet-require _ _) λ _. bind-Follows _ _ (Quiet-storage_call _) λ _.
          bind-Follows _ _ (Quiet-part_urls _ _ _ _) λ urls. bind-Follows _ _ (Quiet-gets _) λ now.
            then-Follows _ _
              (Leads-attempt _ (
                create-Follows _
                  (new_share-zero env c now r (some env.new_upload_id) uploading live)))
              λ made. Quiet-bind _ _ (Quiet-abort_on_failure _ _ made) (λ x. Quiet-pure _)

  Changed :
      {A : Type 0} (e : Error) (f : ℕ → Db → A × Db)
      → ((w : World Db)
          → Untouched s w
          → SameTable w.db (f w.now w.db).1 ⊎ Change (w.faults ≢ []) w.now w.db (f w.now w.db).1)
      → Follows (query e f)
  Changed e f h = Wrote-Follows _ (λ w u. query-Wrote e f w (h w u))

  pub burn-Follows : (token : ℕ) → Follows (update_status token burned)
  unfolding update_status
  burn-Follows token = Changed _ _ λ w u. inr (burn token refl refl)

  -- What a read found at the start is still there before the first write.
  activate-Follows :
      (token : ℕ) (r : Share)
      → find? (has_token token) s.db.shares ≡ some r
      → is_uploading r.status ≡ true
      → Follows (update_status token active)
  unfolding update_status
  activate-Follows token r e up =
      Changed _ _
        λ w u. inr (activate token r (ap (find? (has_token token)) u.shares ∙ e) up refl refl)

  remove-Follows :
      (token : ℕ) (r : Share)
      → find? (has_token token) s.db.shares ≡ some r
      → is_uploading r.status ≡ true
      → Follows (delete_by_token token)
  unfolding delete_by_token
  remove-Follows token r e up =
      Changed _ _
        λ w u. inr (remove token r (ap (find? (has_token token)) u.shares ∙ e) up refl refl)

  pub found_result :
      (token : ℕ) (w : World Db) (r : Share)
      → (find_by_token token w).0 ≡ ok r
      → find? (has_token token) w.db.shares ≡ some r
  unfolding find_by_token ◌>>=◌
  found_result token w r h = ground arith

  -- A method that begins by reading a share may use what it found.
  find-Follows :
      {A : Type 0} (token : ℕ) (f : Share → Service A)
      → ((r : Share) → find? (has_token token) s.db.shares ≡ some r → Follows (f r))
      → Follows (find_by_token token >>= f)
  find-Follows token f h =
      Leads-bind_result (Untouched-Evolved s) (λ r. find? (has_token token) s.db.shares ≡ some r) _
        f (Quiet-Untouched s _ (Quiet-find_by_token token))
        (λ w r u e. ap (find? (has_token token)) (sym u.shares) ∙ found_result token w r e) h

  require-Follows :
      {A : Type 0} (b : Bool) (e : Error) (m : Service A)
      → (b ≡ true → Follows m)
      → Follows (require b e >> m)
  require-Follows b e m h = Leads-require (Untouched-Evolved s) b e m h

  settle_upload-Follows :
      (token key : ℕ) (b : Bool) (r : Share)
      → find? (has_token token) s.db.shares ≡ some r
      → is_uploading r.status ≡ true
      → Follows (settle_upload token key b)
  unfolding settle_upload
  settle_upload-Follows token key true r e up =
      bind-Follows _ _ (Quiet-ignore _ (Quiet-storage_call _)) λ _.
        then-Follows _ _ (Leads-ignore _ (burn-Follows token))
          λ _. Quiet-bind _ _ (Quiet-forget_progress token) (λ _. Quiet-raise _)
  settle_upload-Follows token key false r e up =
      bind-Follows _ _ (Quiet-forget_progress token) λ _. activate-Follows token r e up

  uploading_of_open : (r : Share) (now : ℕ) → is_open_at r now ≡ true → is_uploading r.status ≡ true
  uploading_of_open r now h = ground arith

  pub complete-Follows :
      (env : Env) (token upload : ℕ) → Follows (complete_multipart_upload env token upload)
  unfolding complete_multipart_upload
  complete-Follows env token upload = find-Follows token _ λ r e.
      bind-Follows _ _ (Quiet-gets _) λ now. require-Follows _ _ _ λ open_.
        bind-Follows _ _ (Quiet-require _ _) λ _. bind-Follows _ _ (Quiet-storage_call _) λ _.
          bind-Follows _ _ (Quiet-read _ _)
            λ size. settle_upload-Follows token _ _ r e (uploading_of_open r now open_)

  pub abort-Follows : (token upload : ℕ) → Follows (abort_multipart_upload token upload)
  unfolding abort_multipart_upload
  abort-Follows token upload = find-Follows token _ λ r e. require-Follows _ _ _ λ up.
      bind-Follows _ _ (Quiet-require _ _) λ _.
        bind-Follows _ _ (Quiet-ignore _ (Quiet-storage_call _))
          λ _. bind-Follows _ _ (Quiet-forget_progress token) λ _. remove-Follows token r e up

  pub admin_burn-Follows : (token : ℕ) → Follows (admin_burn_share token)
  unfolding admin_burn_share
  admin_burn-Follows token = bind-Follows _ _ (Quiet-find_by_token token) λ r.
      bind-Follows _ _ (Quiet-when _ _ (Quiet-ignore _ (Quiet-storage_call _)))
        λ _. bind-Follows _ _ (Quiet-forget_progress token) λ _. burn-Follows token

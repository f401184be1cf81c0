-- ===== src/Ephemeral/RefinesPurge.antt =====
-- The purge, and so every call of the service, follows the edges of the state machine.
use bytevault.Prelude.{ℕ, zero, suc, Bool, true, List, [], ◌∷◌, ltb, ◌≢◌, inr, refl, length}
use bytevault.Prelude.Action.{World, Result, ok, err, pure, ◌>>=◌}
use bytevault.Prelude.Action.Leads.{Leads, Leads-attempt, Leads-ignore, Leads-bind, Leads-if}
use bytevault.Ephemeral.{Db, Error, Service, Env}
use bytevault.Ephemeral.Repository.{expire_past_due}
use bytevault.Ephemeral.Purge.{
  Target, clear_storage_key, clear_keys, purge_expired_and_burned, purge_batch, cleanup_ephemeral,
}
use bytevault.Ephemeral.Calls.{
  Call, configure, open_session, open_multipart, refresh, progress, complete, abort, metadata,
  download, admin_burn, cleanup, listing, Event, perform, at_event, step,
}
use bytevault.Ephemeral.Change.{
  expire, clear_key as clear_key_of, Changes, Untouched, Evolved, Untouched-Evolved, Quiet-Evolved,
}
use bytevault.Ephemeral.Listing.{list_all_for_admin}
use bytevault.Ephemeral.Quiet.{base_rules, Quiet-pure, Quiet-ignore, Quiet-update_settings}
use bytevault.Ephemeral.Quiet.Methods.{
  Quiet-select_targets, Quiet-purge_objects, Quiet-refresh, Quiet-update_live_progress,
  Quiet-get_metadata,
}
use bytevault.Ephemeral.Refines.{
  Follows, Quiet-Follows, create_upload_session-Follows, create_multipart-Follows, complete-Follows,
  abort-Follows, admin_burn-Follows,
}
use bytevault.Ephemeral.Writes.{Leads-Wrote, query-Wrote}
use bytevault.Ephemeral.RefinesDownload.{request_download-Follows}

module _ (s : World Db) where
  abbrev GoesOn : {A : Type 0} → Service A → Type 0
  GoesOn m = Leads (Evolved s) (Evolved s) m

  bind-GoesOn :
      {A B : Type 0} (m : Service A) (f : A → Service B)
      → GoesOn m
      → ((a : A) → GoesOn (f a))
      → GoesOn (m >>= f)
  bind-GoesOn m f h k = Leads-bind (λ w e. e) m f h k

  expire-GoesOn : GoesOn expire_past_due
  unfolding expire_past_due
  expire-GoesOn = Leads-Wrote s _ λ w. query-Wrote _ _ w (inr (expire refl refl))

  clear_storage_key-GoesOn : (t : Target) → GoesOn (clear_storage_key t)
  unfolding clear_storage_key
  clear_storage_key-GoesOn t =
      Leads-Wrote s _ λ w. query-Wrote _ _ w (inr (clear_key_of t.id refl refl))

  clear_keys-GoesOn : (ts : List Target) → GoesOn (clear_keys ts)
  unfolding clear_keys
  clear_keys-GoesOn [] = Quiet-Evolved s _ (Quiet-pure tt)
  clear_keys-GoesOn (t ∷ ts) =
      bind-GoesOn _ _ (Leads-ignore _ (clear_storage_key-GoesOn t)) (λ _. clear_keys-GoesOn ts)

  purge-GoesOn : GoesOn purge_expired_and_burned
  unfolding purge_expired_and_burned
  purge-GoesOn = bind-GoesOn _ _ (Leads-ignore _ expire-GoesOn) λ _.
      bind-GoesOn _ _ (Quiet-Evolved s _ Quiet-select_targets)
        λ ts. bind-GoesOn _ _ (clear_keys-GoesOn ts) λ _. Quiet-Evolved s _ (Quiet-pure ts)

  purge_batch-GoesOn :
      (again : Service Bool) (batch : Result Error (List Target))
      → GoesOn again
      → GoesOn (purge_batch again batch)
  unfolding purge_batch
  purge_batch-GoesOn again (err e) h = Quiet-Evolved s _ (Quiet-pure _)
  purge_batch-GoesOn again (ok ts) h =
      bind-GoesOn _ _ (Quiet-Evolved s _ (Quiet-purge_objects ts)) λ _.
        Leads-if (λ w e. e) (ltb (length ts) 100) (pure true) again
          (λ _. Quiet-Evolved s _ (Quiet-pure true)) (λ _. h)

  cleanup-GoesOn : (rounds : ℕ) → GoesOn (cleanup_ephemeral rounds)
  unfolding cleanup_ephemeral
  cleanup-GoesOn zero = Quiet-Evolved s _ (Quiet-pure _)
  cleanup-GoesOn (suc rounds) =
      bind-GoesOn _ _ (Leads-attempt _ purge-GoesOn)
        (λ batch. purge_batch-GoesOn _ batch (cleanup-GoesOn rounds))

  listing-GoesOn : (limit offset : ℕ) → GoesOn (list_all_for_admin limit offset)
  unfolding list_all_for_admin
  listing-GoesOn limit offset =
      bind-GoesOn _ _ (Leads-ignore _ expire-GoesOn) λ _. Quiet-Evolved s _ (search base_rules)

  from_start : {A : Type 0} (m : Service A) → GoesOn m → Follows s m
  from_start m h = record { at = λ w u. h.at w (Untouched-Evolved s w u) }

  perform-Follows : (env : Env) (c : Call) → Follows s (perform env c)
  unfolding perform
  perform-Follows env (configure c) = Quiet-Follows s _ (Quiet-update_settings c)
  perform-Follows env (open_session r) = Leads-ignore _ (create_upload_session-Follows s env r)
  perform-Follows env (open_multipart r n live) =
      Leads-ignore _ (create_multipart-Follows s env r n live)
  perform-Follows env (refresh token upload ns) =
      Quiet-Follows s _ (Quiet-ignore _ (Quiet-refresh token upload ns))
  perform-Follows env (progress token pct bytes) =
      Quiet-Follows s _ (Quiet-update_live_progress token pct bytes)
  perform-Follows env (complete token upload) = complete-Follows s env token upload
  perform-Follows env (abort token upload) = abort-Follows s token upload
  perform-Follows env (metadata token) =
      Quiet-Follows s _ (Quiet-ignore _ (Quiet-get_metadata token))
  perform-Follows env (download token password) =
      Leads-ignore _ (request_download-Follows s env token password)
  perform-Follows env (admin_burn token) = admin_burn-Follows s token
  perform-Follows env (cleanup rounds) = Leads-ignore _ (from_start _ (cleanup-GoesOn rounds))
  perform-Follows env (listing limit offset) =
      Leads-ignore _ (from_start _ (listing-GoesOn limit offset))

-- Every call of the service, whatever fails during it, changes the table of shares along the edges of
-- the state machine alone, and counts a last download without burning the share only if something
-- failed.
pub step-Changes : (e : Event) (d : Db) → Changes (e.faults ≢ []) e.now d (step e d)
unfolding step
step-Changes e d = ((perform-Follows w e.env e.call).at w untouched).changes
  where
    w : World Db
    w = at_event e d

    untouched : Untouched w w
    untouched = record { shares = refl; next_id = refl; now = refl; faults = λ h. h }

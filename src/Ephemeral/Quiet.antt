-- ===== src/Ephemeral/Quiet.antt =====
-- Actions that write no share: the rules by which they are built.
pub mod Methods
use bytevault.Prelude.{
  ℕ, zero, suc, ◌+◌, Bool, true, false, Option, none, some, List, [], ◌∷◌, ◌≡◌, refl, ◌∙◌, arith,
}
use bytevault.Prelude.Int.{ℤ}
use bytevault.Prelude.Action.{
  World, Result, ok, err, pure, raise, gets, query, attempt, ignore, require, or_raise, modify,
  when, continue, ◌>>=◌,
}
use bytevault.Ephemeral.{Share, Settings, Url, StorageCall, Db, Error, Service}
use bytevault.Ephemeral.Repository.{
  get_settings, update_settings, find_by_token, count_uploads_by_ip_in_window, storage_call,
  presign, forget_progress,
}
use bytevault.Ephemeral.Upload.{
  add_once, abort_on_failure, check_rate, with_part, part_urls, refresh_part, refresh_urls,
  refresh_multipart_part_urls, update_live_progress,
}
use bytevault.Ephemeral.Download.{preview_url, get_metadata}
use bytevault.Ephemeral.Purge.{Target, select_targets, purge_objects}
use bytevault.Ephemeral.Change.{Quiet}

-- A read.
pub Quiet-query :
    {A : Type 0} (e : Error) (f : ℕ → Db → A × Db)
    → ((n : ℕ) (d : Db) → (f n d).1.shares ≡ d.shares)
    → ((n : ℕ) (d : Db) → (f n d).1.next_id ≡ d.next_id)
    → Quiet (query e f)
unfolding ◌>>=◌
Quiet-query e f hs hn = record {
  shares = λ w. ground (arith, hs w.now w.db);
  next_id = λ w. ground (arith, hn w.now w.db);
  now = λ w. ground arith;
  faults = λ w h. ground arith;
}

module _ {A : Type 0} where
  pub Quiet-pure : (a : A) → Quiet (pure a)
  unfolding ◌>>=◌
  Quiet-pure a = record {
    shares = λ w. refl;
    next_id = λ w. refl;
    now = λ w. refl;
    faults = λ w h. h;
  }

  pub Quiet-raise : (e : Error) → Quiet (raise {A = A} e)
  unfolding ◌>>=◌
  Quiet-raise e = record {
    shares = λ w. refl;
    next_id = λ w. refl;
    now = λ w. refl;
    faults = λ w h. h;
  }

  pub Quiet-gets : (f : ℕ → Db → A) → Quiet (gets f)
  unfolding ◌>>=◌
  Quiet-gets f = record {
    shares = λ w. refl;
    next_id = λ w. refl;
    now = λ w. refl;
    faults = λ w h. h;
  }

  pub Quiet-or_raise : (o : Option A) (e : Error) → Quiet (or_raise o e)
  unfolding ◌>>=◌
  Quiet-or_raise none e = Quiet-raise e
  Quiet-or_raise (some a) e = Quiet-pure a

  pub Quiet-attempt : (m : Service A) → Quiet m → Quiet (attempt m)
  unfolding ◌>>=◌
  Quiet-attempt m q = record {
    shares = q.shares;
    next_id = q.next_id;
    now = q.now;
    faults = q.faults;
  }

  pub Quiet-ignore : (m : Service A) → Quiet m → Quiet (ignore m)
  unfolding ◌>>=◌
  Quiet-ignore m q = record {
    shares = q.shares;
    next_id = q.next_id;
    now = q.now;
    faults = q.faults;
  }

pub Quiet-require : (b : Bool) (e : Error) → Quiet (require b e)
unfolding ◌>>=◌
Quiet-require true e = Quiet-pure tt
Quiet-require false e = Quiet-raise e

pub Quiet-when : (b : Bool) (m : Service Unit) → Quiet m → Quiet (when b m)
unfolding ◌>>=◌
Quiet-when true m q = record {
  shares = q.shares;
  next_id = q.next_id;
  now = q.now;
  faults = q.faults;
}
Quiet-when false m q = Quiet-pure tt

module _ {A B : Type 0} where
  Quiet-continue :
      (r : Result Error A) (f : A → Service B) → ((a : A) → Quiet (f a)) → Quiet (continue r f)
  unfolding raise
  Quiet-continue (ok a) f q = record {
    shares = (q a).shares;
    next_id = (q a).next_id;
    now = (q a).now;
    faults = (q a).faults;
  }
  Quiet-continue (err e) f q = Quiet-raise e

  pub Quiet-bind :
      (m : Service A) (f : A → Service B) → Quiet m → ((a : A) → Quiet (f a)) → Quiet (m >>= f)
  unfolding ◌>>=◌
  Quiet-bind m f q r = record {
    shares = λ w. (next w).shares (m w).1 ∙ q.shares w;
    next_id = λ w. (next w).next_id (m w).1 ∙ q.next_id w;
    now = λ w. (next w).now (m w).1 ∙ q.now w;
    faults = λ w h. (next w).faults (m w).1 (q.faults w h);
  }
    where
      next : (w : World Db) → Quiet (continue (m w).0 f)
      next w = Quiet-continue (m w).0 f r

pub ruleset action_rules = (
  Quiet-pure, Quiet-raise, Quiet-gets, Quiet-or_raise, Quiet-attempt, Quiet-ignore, Quiet-require,
  Quiet-when, Quiet-bind,
)

pub Quiet-storage_call : (c : StorageCall) → Quiet (storage_call c)
unfolding storage_call ◌>>=◌
Quiet-storage_call c = record {
  shares = λ w. ground arith;
  next_id = λ w. ground arith;
  now = λ w. ground arith;
  faults = λ w h. ground arith;
}

pub Quiet-presign : (u : Url) → Quiet (presign u)
unfolding presign
Quiet-presign u = Quiet-query _ _ (λ n d. refl) (λ n d. refl)

pub Quiet-forget_progress : (token : ℕ) → Quiet (forget_progress token)
unfolding forget_progress ◌>>=◌
Quiet-forget_progress token = record {
  shares = λ w. refl;
  next_id = λ w. refl;
  now = λ w. refl;
  faults = λ w h. h;
}

pub Quiet-update_settings : (s : Settings) → Quiet (update_settings s)
unfolding update_settings
Quiet-update_settings s = Quiet-query _ _ (λ n d. refl) (λ n d. refl)

pub Quiet-read : {A : Type 0} (e : Error) (f : ℕ → Db → A) → Quiet (query e (λ n d. (f n d, d)))
Quiet-read e f = Quiet-query _ _ (λ n d. refl) (λ n d. refl)

pub ruleset base_rules =
    (action_rules, Quiet-read, Quiet-storage_call, Quiet-presign, Quiet-forget_progress)

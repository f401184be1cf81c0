-- ===== src/Ephemeral/Quiet/Methods.antt =====
-- The methods and the statements that write no share.
use bytevault.Prelude.{
  ℕ, zero, suc, ◌+◌, Bool, true, false, Option, none, some, List, [], ◌∷◌, ◌≡◌, refl,
}
use bytevault.Prelude.Int.{ℤ}
use bytevault.Prelude.Action.{Result, ok, err, modify, ◌>>=◌}
use bytevault.Ephemeral.{Share, Url, Db, Error, Service}
use bytevault.Ephemeral.Repository.{get_settings, find_by_token, count_uploads_by_ip_in_window}
use bytevault.Ephemeral.Upload.{
  add_once, abort_on_failure, check_rate, with_part, part_urls, refresh_part, refresh_urls,
  refresh_multipart_part_urls, update_live_progress,
}
use bytevault.Ephemeral.Download.{preview_url, get_metadata}
use bytevault.Ephemeral.Purge.{Target, select_targets, purge_objects}
use bytevault.Ephemeral.Change.{Quiet}
use bytevault.Ephemeral.Quiet.{Quiet-gets, Quiet-require, Quiet-bind, base_rules}

pub Quiet-get_settings : Quiet get_settings
unfolding get_settings
Quiet-get_settings = search base_rules

pub Quiet-find_by_token : (token : ℕ) → Quiet (find_by_token token)
unfolding find_by_token
Quiet-find_by_token token = search base_rules

pub Quiet-count_uploads : (ip : ℕ) → Quiet (count_uploads_by_ip_in_window ip)
unfolding count_uploads_by_ip_in_window
Quiet-count_uploads ip = search base_rules

pub Quiet-check_rate : (ip : Option ℕ) (limit : ℕ) → Quiet (check_rate ip limit)
unfolding check_rate
Quiet-check_rate none limit = search base_rules
Quiet-check_rate (some zero) limit = search base_rules
Quiet-check_rate (some (suc ip)) limit = search (base_rules, Quiet-count_uploads)

pub Quiet-with_part :
    (key upload i : ℕ) (rest : Service (List (ℕ × Url))) (made : Result Error Url)
    → Quiet rest
    → Quiet (with_part key upload i rest made)
unfolding with_part
Quiet-with_part key upload i rest (ok url) q = search base_rules
Quiet-with_part key upload i rest (err e) q = search base_rules

pub Quiet-part_urls : (key upload i n : ℕ) → Quiet (part_urls key upload i n)
unfolding part_urls
Quiet-part_urls key upload i zero = search base_rules
Quiet-part_urls key upload i (suc n) =
    Quiet-bind _ _ (search base_rules)
      (λ made. Quiet-with_part key upload i _ made (Quiet-part_urls key upload (i + 1) n))

pub Quiet-refresh_part :
    (key upload n : ℕ) (rest : Service (List (ℕ × Url))) (b : Bool)
    → Quiet rest
    → Quiet (refresh_part key upload n rest b)
unfolding refresh_part
Quiet-refresh_part key upload n rest true q = q
Quiet-refresh_part key upload n rest false q = search base_rules

pub Quiet-refresh_urls :
    (key upload : ℕ) (seen ns : List ℕ) → Quiet (refresh_urls key upload seen ns)
unfolding refresh_urls
Quiet-refresh_urls key upload seen [] = search base_rules
Quiet-refresh_urls key upload seen (n ∷ ns) =
    Quiet-bind _ _ (search base_rules) (λ _.
      Quiet-refresh_part key upload n _ _ (Quiet-refresh_urls key upload (add_once seen n) ns))

pub Quiet-refresh :
    (token upload : ℕ) (ns : List ℕ) → Quiet (refresh_multipart_part_urls token upload ns)
unfolding refresh_multipart_part_urls
Quiet-refresh token upload ns = search (base_rules, Quiet-find_by_token, Quiet-refresh_urls) depth 9

Quiet-modify :
    (f : ℕ → Db → Db)
    → ((n : ℕ) (d : Db) → (f n d).shares ≡ d.shares)
    → ((n : ℕ) (d : Db) → (f n d).next_id ≡ d.next_id)
    → Quiet (modify (λ n d. (tt, f n d)))
unfolding ◌>>=◌
Quiet-modify f hs hn = record {
  shares = λ w. hs w.now w.db;
  next_id = λ w. hn w.now w.db;
  now = λ w. refl;
  faults = λ w h. h;
}

pub Quiet-update_live_progress :
    (token : ℕ) (pct bytes : ℤ) → Quiet (update_live_progress token pct bytes)
unfolding update_live_progress
Quiet-update_live_progress token pct bytes = Quiet-bind _ _ (Quiet-find_by_token token) λ s.
    Quiet-bind _ _ (Quiet-gets _)
      λ now. Quiet-bind _ _ (Quiet-require _ _) λ _. Quiet-modify _ (λ n d. refl) (λ n d. refl)

Quiet-preview_url : (s : Share) (b : Bool) → Quiet (preview_url s b)
unfolding preview_url
Quiet-preview_url s true = search base_rules
Quiet-preview_url s false = search base_rules

pub Quiet-get_metadata : (token : ℕ) → Quiet (get_metadata token)
unfolding get_metadata
Quiet-get_metadata token = search (base_rules, Quiet-find_by_token, Quiet-preview_url) depth 9

pub Quiet-select_targets : Quiet select_targets
unfolding select_targets
Quiet-select_targets = search base_rules

pub Quiet-purge_objects : (ts : List Target) → Quiet (purge_objects ts)
unfolding purge_objects
Quiet-purge_objects [] = search base_rules
Quiet-purge_objects (t ∷ ts) = Quiet-bind _ _ (search base_rules) (λ _. Quiet-purge_objects ts)

pub Quiet-abort_on_failure :
    (key upload : ℕ) (made : Result Error Share) → Quiet (abort_on_failure key upload made)
unfolding abort_on_failure
Quiet-abort_on_failure key upload (ok s) = search base_rules
Quiet-abort_on_failure key upload (err e) = search base_rules

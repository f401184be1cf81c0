-- ===== src/Ephemeral/Race.antt =====
-- Downloads of one share at the same time: `RequestDownload` reads and checks the share first and
-- counts it later, in another statement, so any number of requests may pass the checks before the
-- first of them is counted.
use bytevault.Prelude.{
  ℕ, zero, suc, ◌+◌, ◌*◌, Option, some, List, [], ◌∷◌, ◌≡◌, inl, inr, refl, ap, ◌∙◌, arith,
  Bool-cases, leb, All, length,
}
use bytevault.Prelude.Table.{find?}
use bytevault.Prelude.Table.Keys.{find?-update_key, find?-by_key}
use bytevault.Prelude.Action.{World, Result, ok, ◌>>=◌}
use bytevault.Ephemeral.{Share, Url, get_object, Db, Error, Env, minute}
use bytevault.Ephemeral.Repository.{
  increment_download_and_check_burn, presign, mark_burned, storage_call,
}
use bytevault.Ephemeral.Download.{check_download, serve_download, burn_if}
use bytevault.Ephemeral.Change.{has_token, has_id}
use bytevault.Ephemeral.Answers.{IsServable, reliable, serve_present, check_servable}
use bytevault.Ephemeral.Bounds.{IsWf}

-- What `n` requests that have passed the checks do, one after the other, and what they answer.
unfoldable pub serve_all : ℕ → Share → World Db → List (Result Error Url) × World Db
serve_all zero s w = ([], w)
serve_all (suc n) s w =
    let (answer, w') = serve_download s w in
    let (answers, last) = serve_all n s w' in (answer ∷ answers, last)

-- One more download, counted.
serve_counts :
    (now : ℕ) (d : Db) (s b : Share)
    → find? (has_id s.id) d.shares ≡ some b
    → (d' : Db) × (b' : Share) × ((serve_download s (reliable now d)).1 ≡ reliable now d')
      × (find? (has_id s.id) d'.shares ≡ some b')
      × (b'.download_count ≡ suc b.download_count)
      × (b'.max_downloads ≡ b.max_downloads)
unfolding serve_download increment_download_and_check_burn presign burn_if mark_burned storage_call
    ◌>>=◌
serve_counts now d s b found = elim (Bool-cases (leb b.max_downloads (b.download_count + 1))) [
  | inl e ↦
      rw (found, e)
        (
          _,
          _,
          refl,
          find?-update_key (λ r. r.id) s.id _ _ _ (λ r. refl)
              (find?-update_key (λ r. r.id) s.id _ d.shares b (λ r. refl) found),
          omega arith,
          refl,
        )
  | inr e ↦
      rw (found, e)
        (
          _,
          _,
          refl,
          find?-update_key (λ r. r.id) s.id _ d.shares b (λ r. refl) found,
          omega arith,
          refl,
        )
]

serve_all_present :
    (n now : ℕ) (d : Db) (s b : Share)
    → find? (has_id s.id) d.shares ≡ some b
    → let (answers, w) = serve_all n s (reliable now d) in
      (length answers ≡ n)
      × All (λ a. a ≡ ok (get_object s.storage_key (30 * minute))) answers
      × ((last : Share) × (find? (has_id s.id) w.db.shares ≡ some last)
          × (last.download_count ≡ b.download_count + n)
          × (last.max_downloads ≡ b.max_downloads))
unfolding serve_all
serve_all_present zero now d s b found = (refl, tt, (b, found, omega arith, refl))
serve_all_present (suc n) now d s b found =
    let (d', b', after, found', counted, limit) = serve_counts now d s b found in
    let (long, all, (last, there, count, most)) = serve_all_present n now d' s b' found' in
    rw after (
      ap suc long,
      (serve_present now d s b found, all),
      (last, there, omega (arith, counted, count), most ∙ limit),
    )

-- In a well-formed table and when nothing fails in any of them, however many requests pass the checks of
-- one share before any of them is counted, each of them is answered with a URL, and the count rises by
-- their number, whatever the share's maximum of downloads is.
pub checked-serve_all :
    (n : ℕ) (env : Env) (token : ℕ) (password : Option ℕ) (now : ℕ) (d : Db) (s : Share)
    → find? (has_token token) d.shares ≡ some s
    → IsWf d
    → IsServable env password now s
    → let (answers, w) = serve_all n s (reliable now d) in
      (check_download env token password (reliable now d) ≡ (ok s, reliable now d))
      × (length answers ≡ n)
      × All (λ a. a ≡ ok (get_object s.storage_key (30 * minute))) answers
      × ((last : Share) × (find? (has_id s.id) w.db.shares ≡ some last)
          × (last.download_count ≡ s.download_count + n)
          × (last.max_downloads ≡ s.max_downloads))
checked-serve_all n env token password now d s found wf v =
    let (long, all, counted) =
      serve_all_present n now d s s
        (find?-by_key (λ r. r.id) (has_token token) d.shares s wf.ids found) in
    (check_servable env token password now d s found v, long, all, counted)

-- ===== src/Ephemeral/Gone.antt =====
-- A share that has burned or expired is never downloaded again.
use bytevault.Prelude.{ℕ, Bool, Option, List, ◌≢◌, inl, inr, arith, Option-cases}
use bytevault.Prelude.Table.{find?}
use bytevault.Prelude.Action.{World, ok, ◌>>=◌}
use bytevault.Ephemeral.{Url, Db, Env}
use bytevault.Ephemeral.Repository.{find_by_token}
use bytevault.Ephemeral.Download.{check_download, request_download}
use bytevault.Ephemeral.Calls.{Event, run}
use bytevault.Ephemeral.Change.{has_token}
use bytevault.Ephemeral.Lifecycle.{IsClosed, run-IsClosed, closed_not_open}

refused :
    (env : Env) (token : ℕ) (password : Option ℕ) (w : World Db)
    → IsClosed token w.db
    → (u : Url) → (request_download env token password w).0 ≢ ok u
unfolding request_download check_download find_by_token ◌>>=◌
refused env token password w c u = elim (Option-cases (find? (has_token token) w.db.shares)) [
  | inl e ↦ ground arith
  | inr (r, e) ↦ ground (arith, closed_not_open token w.db r c e)
]

-- Once a share is burned or expired, then after any calls at any times, with any failures among them,
-- a download of it under any password, at any time and under any failures, is refused.
pub closed-no_download :
    (token : ℕ) (d : Db) (es : List Event)
    → IsClosed token d
    → (env : Env) (password : Option ℕ) (now : ℕ) (faults : List Bool) (u : Url)
    → (request_download env token password (record { now = now; faults = faults; db = run d es })).0
      ≢ ok u
closed-no_download token d es c env password now faults u =
    refused env token password (record { now = now; faults = faults; db = run d es })
      (run-IsClosed token d es c) u

-- ===== src/Invites/Calls.antt =====
-- The calls that reach the service of invites, each with its time and its failures.
use bytevault.Prelude.{ℕ, Bool, List, [], ◌∷◌}
use bytevault.Prelude.Text.{Text}
use bytevault.Prelude.Int.{ℤ}
use bytevault.Prelude.Action.{ignore}
use bytevault.Invites.{Db, Service, Env}
use bytevault.Invites.Repository.{expire_stale_invites}
use bytevault.Invites.Owner.{
  create_invite, revoke_invite, get_invite_info, cleanup_abandoned_uploads,
}
use bytevault.Invites.Guest.{verify_passcode, guest_create_upload_session, guest_complete_upload}

pub data Call : Type 0 where
  create : ℕ → Text → ℤ → ℤ → ℤ → ℕ → Call
  revoke : ℕ → ℕ → Call
  info : ℕ → Call
  verify : ℕ → ℕ → ℕ → Call
  guest_create : ℕ → Text → ℕ → Text → ℕ → ℕ → Call
  guest_complete : ℕ → ℕ → Call
  cleanup : Call
  expire_stale : Call

pub record Event : Type 0 where
  pub env : Env
  pub now : ℕ
  pub faults : List Bool
  pub call : Call

unfoldable pub perform : Env → Call → Service Unit
perform env (create owner name bytes n expiry passcode) =
    ignore (create_invite env owner name bytes n expiry passcode)
perform env (revoke id owner) = revoke_invite id owner
perform env (info token) = ignore (get_invite_info token)
perform env (verify token passcode ip) = ignore (verify_passcode env token passcode ip)
perform env (guest_create token name size type session ip) =
    ignore (guest_create_upload_session env token name size type session ip)
perform env (guest_complete token file) = guest_complete_upload env token file
perform env cleanup = cleanup_abandoned_uploads
perform env expire_stale = ignore expire_stale_invites

unfoldable pub step : Event → Db → Db
step e d = (perform e.env e.call (record { now = e.now; faults = e.faults; db = d })).1.db

unfoldable pub run : Db → List Event → Db
run d [] = d
run d (e ∷ es) = run (step e d) es

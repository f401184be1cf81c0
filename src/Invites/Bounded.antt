-- ===== src/Invites/Bounded.antt =====
-- No history of calls takes an invite beyond its limits.
use bytevault.Prelude.{
  ℕ, zero, suc, Bool, true, false, Option, none, some, List, [], ◌∷◌, refl, All,
}
use bytevault.Prelude.Int.{ℤ}
use bytevault.Prelude.Action.{Result, ok, err}
use bytevault.Prelude.Text.{Text}
use bytevault.Vault.{File}
use bytevault.Invites.{Invite, Db, Error, Env}
use bytevault.Invites.Repository.{StaleUpload}
use bytevault.Invites.Owner.{
  find_owner, passcode_hash, create_invite, revoke_invite, get_invite_info, clean_up, clean_up_all,
  cleanup_abandoned_uploads,
}
use bytevault.Invites.Guest.{
  require_open, limit_attempts, store_session, verify_passcode, validate_session,
  validate_guest_session, limit_uploads, restore_folder, target_folder, release_on_failure,
  fail_on_failure, guest_create_upload_session, finish, drop_if_revoked, guest_complete_upload,
}
use bytevault.Invites.Capacity.{
  Fits, Keeps, Keeps-require, Keeps-gets, count_active-Keeps, Keeps-query, Keeps-bind, Keeps-ignore,
  statement_rules, create-Keeps, expire_stale_invites-Keeps, make_folder-Keeps,
}
use bytevault.Invites.Calls.{
  Call, create, revoke, info, verify, guest_create, guest_complete, cleanup, expire_stale, Event,
  perform, step, run,
}

find_owner-Keeps : (owner : ℕ) → Keeps (find_owner owner)
unfolding find_owner
find_owner-Keeps owner = search statement_rules

passcode_hash-Keeps : (env : Env) (p : ℕ) → Keeps (passcode_hash env p)
unfolding passcode_hash
passcode_hash-Keeps env zero = search statement_rules
passcode_hash-Keeps env (suc p) = search statement_rules

revoke_invite-Keeps : (id owner : ℕ) → Keeps (revoke_invite id owner)
unfolding revoke_invite
revoke_invite-Keeps id owner = search statement_rules depth 9

get_invite_info-Keeps : (token : ℕ) → Keeps (get_invite_info token)
unfolding get_invite_info
get_invite_info-Keeps token = search statement_rules depth 9

clean_up-Keeps : (u : StaleUpload) (c : Result Error Bool) → Keeps (clean_up u c)
unfolding clean_up
clean_up-Keeps u (ok true) = search statement_rules
clean_up-Keeps u (ok false) = search statement_rules
clean_up-Keeps u (err e) = search statement_rules

clean_up_all-Keeps : (us : List StaleUpload) → Keeps (clean_up_all us)
unfolding clean_up_all
clean_up_all-Keeps [] = search statement_rules
clean_up_all-Keeps (u ∷ us) =
    Keeps-bind _ _ (search statement_rules)
      λ c. Keeps-bind _ _ (clean_up-Keeps u c) (λ x. clean_up_all-Keeps us)

cleanup-Keeps : Keeps cleanup_abandoned_uploads
unfolding cleanup_abandoned_uploads
cleanup-Keeps = search (statement_rules, clean_up_all-Keeps)

require_open-Keeps : (i : Invite) → Keeps (require_open i)
unfolding require_open
require_open-Keeps i = search statement_rules depth 9

limit_attempts-Keeps : (ip token : ℕ) → Keeps (limit_attempts ip token)
unfolding limit_attempts
limit_attempts-Keeps zero token = search statement_rules
limit_attempts-Keeps (suc ip) token =
    Keeps-bind _ _ (Keeps-query _ _ (λ n d h. h)) (λ a. search statement_rules)

store_session-Keeps : (env : Env) (id : ℕ) → Keeps (store_session env id)
unfolding store_session
store_session-Keeps env id = Keeps-query _ _ (λ n d h. h)

verify_passcode-Keeps :
    (env : Env) (token passcode ip : ℕ) → Keeps (verify_passcode env token passcode ip)
unfolding verify_passcode
verify_passcode-Keeps env token passcode ip =
    search (statement_rules, require_open-Keeps, limit_attempts-Keeps, store_session-Keeps) depth 12

validate_session-Keeps :
    (i : Invite) (session : ℕ) (b : Bool) → Keeps (validate_session i session b)
unfolding validate_session
validate_session-Keeps i session false = search statement_rules
validate_session-Keeps i session true = search statement_rules depth 9

validate_guest_session-Keeps : (i : Invite) (session : ℕ) → Keeps (validate_guest_session i session)
unfolding validate_guest_session
validate_guest_session-Keeps i session = validate_session-Keeps i session _

limit_uploads-Keeps : (ip : ℕ) → Keeps (limit_uploads ip)
unfolding limit_uploads
limit_uploads-Keeps zero = search statement_rules
limit_uploads-Keeps (suc ip) = search statement_rules

release_on_failure-Keeps :
    (id size : ℕ) (r : Result Error (File × ℕ)) → Keeps (release_on_failure id size r)
unfolding release_on_failure
release_on_failure-Keeps id size (ok f) = search statement_rules
release_on_failure-Keeps id size (err e) = search statement_rules

fail_on_failure-Keeps :
    (id size file : ℕ) (r : Result Error (Unit {0})) → Keeps (fail_on_failure id size file r)
unfolding fail_on_failure
fail_on_failure-Keeps id size file (ok f) = search statement_rules
fail_on_failure-Keeps id size file (err e) = search statement_rules

finish-Keeps : (id size : ℕ) (r : Result Error (Unit {0})) → Keeps (finish id size r)
unfolding finish
finish-Keeps id size (ok x) = search statement_rules
finish-Keeps id size (err e) = search statement_rules

drop_if_revoked-Keeps : (i : Invite) (f : File) (b : Bool) → Keeps (drop_if_revoked i f b)
unfolding drop_if_revoked
drop_if_revoked-Keeps i f false = search statement_rules
drop_if_revoked-Keeps i f true = search statement_rules depth 9

guest_complete-Keeps : (env : Env) (token file : ℕ) → Keeps (guest_complete_upload env token file)
unfolding guest_complete_upload
guest_complete-Keeps env token file =
    search (statement_rules, drop_if_revoked-Keeps, finish-Keeps) depth 14

restore_folder-Keeps :
    (env : Env) (i : Invite) (folder : ℕ) (b : Bool) → Keeps (restore_folder env i folder b)
unfolding restore_folder
restore_folder-Keeps env i folder true = search statement_rules
restore_folder-Keeps env i folder false = search statement_rules

target_folder-Keeps : (env : Env) (i : Invite) (f : Option ℕ) → Keeps (target_folder env i f)
unfolding target_folder
target_folder-Keeps env i none = search statement_rules
target_folder-Keeps env i (some f) = search (statement_rules, restore_folder-Keeps)

guest_create-Keeps :
    (env : Env) (token : ℕ) (name : Text) (size : ℕ) (content_type : Text) (session ip : ℕ)
    → Keeps (guest_create_upload_session env token name size content_type session ip)
unfolding guest_create_upload_session
guest_create-Keeps env token name size content_type session ip =
    search
      (
        statement_rules, require_open-Keeps, validate_guest_session-Keeps, limit_uploads-Keeps,
        target_folder-Keeps, release_on_failure-Keeps, fail_on_failure-Keeps,
      )
      depth 20

create_invite-Keeps :
    (env : Env) (owner : ℕ) (name : Text) (bytes n expiry : ℤ) (passcode : ℕ)
    → Keeps (create_invite env owner name bytes n expiry passcode)
unfolding create_invite
create_invite-Keeps env owner name bytes n expiry passcode =
    Keeps-bind _ _ (find_owner-Keeps owner) λ _. Keeps-bind _ _ (count_active-Keeps owner) λ count.
      Keeps-bind _ _ (Keeps-require _ _) λ _.
        Keeps-bind _ _ (make_folder-Keeps env owner _ _) λ folder.
          Keeps-bind _ _ (passcode_hash-Keeps env passcode)
            λ hash. Keeps-bind _ _ (Keeps-gets _) (λ now. create-Keeps _ refl refl)

perform-Keeps : (env : Env) (c : Call) → Keeps (perform env c)
unfolding perform
perform-Keeps env (create owner name bytes n expiry passcode) =
    Keeps-ignore _ (create_invite-Keeps env owner name bytes n expiry passcode)
perform-Keeps env (revoke id owner) = revoke_invite-Keeps id owner
perform-Keeps env (info token) = Keeps-ignore _ (get_invite_info-Keeps token)
perform-Keeps env (verify token passcode ip) =
    Keeps-ignore _ (verify_passcode-Keeps env token passcode ip)
perform-Keeps env (guest_create token name size type session ip) =
    Keeps-ignore _ (guest_create-Keeps env token name size type session ip)
perform-Keeps env (guest_complete token file) = guest_complete-Keeps env token file
perform-Keeps env cleanup = cleanup-Keeps
perform-Keeps env expire_stale = Keeps-ignore _ expire_stale_invites-Keeps

step-Fits : (d : Db) (e : Event) → All Fits d.invites → All Fits (step e d).invites
unfolding step
step-Fits d e h =
    (perform-Keeps e.env e.call).at (record { now = e.now; faults = e.faults; db = d }) h

-- However calls follow each other and whatever fails in them, no invite has more bytes or more files
-- reserved than its limits.
pub run-Fits : (d : Db) (es : List Event) → All Fits d.invites → All Fits (run d es).invites
unfolding run
run-Fits d [] h = h
run-Fits d (e ∷ es) h = run-Fits (step e d) es (step-Fits d e h)

-- ===== src/Invites/Capacity.antt =====
-- The capacity of an invite: what is reserved stays within its limits.
use bytevault.Prelude.{
  ℕ, ◌≤◌, Bool, true, false, Option, none, some, List, ◌≡◌, arith, All, ◌==◌, is_some, Bool-cases,
  inl, inr,
}
use bytevault.Prelude.Table.{find?, update, All-update}
use bytevault.Prelude.Action.{
  World, pure, raise, gets, query, attempt, ignore, require, or_raise, when, next_fault, settle,
  ◌>>=◌,
}
use bytevault.Prelude.Action.Leads.{
  Leads, Leads-pure, Leads-raise, Leads-attempt, Leads-ignore, Leads-bind,
}
use bytevault.Prelude.Text.{Text}
use bytevault.Vault
use bytevault.Vault.{Status}
use bytevault.Invites.Folders.{
  in_vault, make_folder, find_folder, find_file, update_file_status, claim_upload, delete_object,
  open_session, complete_file,
}
use bytevault.Invites.{Invite, InviteStatus, Db, Error, Service, Env, expired}
use bytevault.Invites.Repository.{
  has_room, reserve, release, notify, set_status, insert_row, create, find_by_token, find_by_id,
  update_status, reserve_usage, release_usage, increment_pending_notify, record_file,
  count_uploads_by_ip_in_window, count_active_by_owner, expire_stale_invites, find_by_file_id,
  list_stale_uploads,
}

-- An invite within its limits.
pub record Fits (i : Invite) : Type 0 where
  pub bytes : i.used_bytes ≤ i.max_total_bytes
  pub files : i.used_files ≤ i.max_files

abbrev pub Within : World Db → Type 0
Within w = All Fits w.db.invites

abbrev pub Keeps : {A : Type 0} → Service A → Type 0
Keeps m = Leads Within Within m

module _ {A : Type 0} where
  pub Keeps-query :
      (e : Error) (f : ℕ → Db → A × Db)
      → ((n : ℕ) (d : Db) → All Fits d.invites → All Fits (f n d).1.invites)
      → Keeps (query e f)
  unfolding ◌>>=◌
  Keeps-query e f h = record {
    at = λ w k. go (next_fault w.faults).0 (next_fault w.faults).1 w k (h w.now w.db k);
  }
    where
      go :
          (b : Bool) (bs : List Bool) (w : World Db)
          → Within w
          → All Fits (f w.now w.db).1.invites
          → Within (settle b e bs w (f w.now w.db)).1
      go true bs w k k' = k
      go false bs w k k' = k'

  pub Keeps-read : (e : Error) (f : ℕ → Db → A) → Keeps (query e (λ n d. (f n d, d)))
  Keeps-read e f = Keeps-query e _ (λ n d h. h)

  pub Keeps-pure : (a : A) → Keeps (pure a)
  Keeps-pure a = Leads-pure (λ w h. h) a

  pub Keeps-raise : (e : Error) → Keeps (raise {A = A} e)
  Keeps-raise e = Leads-raise (λ w h. h) e

  pub Keeps-gets : (f : ℕ → Db → A) → Keeps (gets f)
  unfolding ◌>>=◌
  Keeps-gets f = record { at = λ w h. h }

  pub Keeps-or_raise : (o : Option A) (e : Error) → Keeps (or_raise o e)
  unfolding ◌>>=◌
  Keeps-or_raise none e = record { at = λ w h. h }
  Keeps-or_raise (some a) e = record { at = λ w h. h }

  pub Keeps-attempt : (m : Service A) → Keeps m → Keeps (attempt {E' = Error} m)
  Keeps-attempt m h = Leads-attempt m h

  pub Keeps-ignore : (m : Service A) → Keeps m → Keeps (ignore {E' = Error} m)
  Keeps-ignore m h = Leads-ignore m h

pub Keeps-bind :
    {A B : Type 0} (m : Service A) (f : A → Service B)
    → Keeps m
    → ((a : A) → Keeps (f a))
    → Keeps (m >>= f)
Keeps-bind m f h k = Leads-bind (λ w h. h) m f h k

pub Keeps-require : (b : Bool) (e : Error) → Keeps (require b e)
unfolding ◌>>=◌
Keeps-require true e = record { at = λ w h. h }
Keeps-require false e = record { at = λ w h. h }

pub Keeps-when : (b : Bool) (m : Service Unit) → Keeps m → Keeps (when b m)
unfolding ◌>>=◌
Keeps-when true m h = record { at = h.at }
Keeps-when false m h = record { at = λ w k. k }

pub ruleset keeps_rules = (
  Keeps-read, Keeps-pure, Keeps-raise, Keeps-gets, Keeps-or_raise, Keeps-attempt, Keeps-ignore,
  Keeps-bind, Keeps-require, Keeps-when,
)

-- The statements.
pub create-Keeps : (i : Invite) → i.used_bytes ≡ 0 → i.used_files ≡ 0 → Keeps (create i)
unfolding create
create-Keeps i no_bytes no_files =
    Keeps-bind _ _ (Keeps-query _ _ inserted) (λ o. Keeps-or_raise o _)
  where
    inserted : (n : ℕ) (d : Db) → All Fits d.invites → All Fits (insert_row i n d).1.invites
    inserted n d h = elim (Bool-cases (is_some (find? (λ r. r.token == i.token) d.invites))) [
      | inl e ↦ rw e h
      | inr e ↦
          rw e (record { bytes = omega (arith, no_bytes); files = omega (arith, no_files) }, h)
    ]

pub each-Keeps :
    {A : Type 0} (e : Error) (a : ℕ → Db → A) (p : ℕ → Invite → Bool) (f : Invite → Invite)
    → ((n : ℕ) (i : Invite) → p n i ≡ true → Fits i → Fits (f i))
    → Keeps (query e (λ n d. (a n d, record d { invites = update (p n) f d.invites })))
each-Keeps e a p f h = Keeps-query e _ (λ n d k. All-update Fits (p n) f d.invites (h n) k)

pub update_status-Keeps : (id : ℕ) (status : InviteStatus) → Keeps (update_status id status)
unfolding update_status
update_status-Keeps id status =
    Keeps-bind _ _
      (each-Keeps _ _ _ (set_status status)
        (λ n i e h. record { bytes = h.bytes; files = h.files }))
      (λ row. Keeps-bind _ _ (Keeps-or_raise row _) (λ x. Keeps-pure tt))

pub reserve_usage-Keeps : (id size : ℕ) → Keeps (reserve_usage id size)
unfolding reserve_usage
reserve_usage-Keeps id size = each-Keeps _ _ (λ n. has_room id size n) (reserve size) room
  where
    room : (n : ℕ) (i : Invite) → has_room id size n i ≡ true → Fits i → Fits (reserve size i)
    room n i e h = record { bytes = ground arith; files = ground arith }

pub release_usage-Keeps : (id size : ℕ) → Keeps (release_usage id size)
unfolding release_usage
release_usage-Keeps id size = each-Keeps _ _ _ (release size) less
  where
    less : (n : ℕ) (i : Invite) → (i.id == id) ≡ true → Fits i → Fits (release size i)
    less n i e h = record { bytes = omega (arith, h.bytes); files = omega (arith, h.files) }

pub increment_pending_notify-Keeps : (id : ℕ) → Keeps (increment_pending_notify id)
unfolding increment_pending_notify
increment_pending_notify-Keeps id =
    each-Keeps _ _ _ notify (λ n i e h. record { bytes = h.bytes; files = h.files })

pub expire_stale_invites-Keeps : Keeps expire_stale_invites
unfolding expire_stale_invites
expire_stale_invites-Keeps =
    each-Keeps _ _ _ (set_status expired) (λ n i e h. record { bytes = h.bytes; files = h.files })

pub find_by_token-Keeps : (token : ℕ) → Keeps (find_by_token token)
unfolding find_by_token
find_by_token-Keeps token = search keeps_rules

pub find_by_id-Keeps : (id : ℕ) → Keeps (find_by_id id)
unfolding find_by_id
find_by_id-Keeps id = search keeps_rules

pub find_by_file_id-Keeps : (file : ℕ) → Keeps (find_by_file_id file)
unfolding find_by_file_id
find_by_file_id-Keeps file = search keeps_rules

pub count_uploads-Keeps : (ip : ℕ) → Keeps (count_uploads_by_ip_in_window ip)
unfolding count_uploads_by_ip_in_window
count_uploads-Keeps ip = Keeps-read _ _

pub count_active-Keeps : (owner : ℕ) → Keeps (count_active_by_owner owner)
unfolding count_active_by_owner
count_active-Keeps owner = Keeps-read _ _

pub list_stale-Keeps : Keeps list_stale_uploads
unfolding list_stale_uploads
list_stale-Keeps = Keeps-read _ _

pub record_file-Keeps : (invite file : ℕ) (ip : Option ℕ) → Keeps (record_file invite file ip)
unfolding record_file
record_file-Keeps invite file ip = Keeps-query _ _ (λ n d h. h)

-- What the file and the folder service do leaves the invites as they are.
pub in_vault-Keeps : {A : Type 0} (m : Vault.Service A) → Keeps (in_vault m)
unfolding in_vault
in_vault-Keeps m = record { at = λ w h. h }

pub find_file-Keeps : (id : ℕ) → Keeps (find_file id)
unfolding find_file
find_file-Keeps id = Keeps-bind _ _ (in_vault-Keeps _) (λ o. Keeps-or_raise o _)

pub find_folder-Keeps : (id : ℕ) → Keeps (find_folder id)
unfolding find_folder
find_folder-Keeps id = in_vault-Keeps _

pub make_folder-Keeps :
    (env : Env) (owner : ℕ) (label : Text) (token : ℕ) → Keeps (make_folder env owner label token)
unfolding make_folder
make_folder-Keeps env owner label token =
    Keeps-bind _ _ (in_vault-Keeps _) (λ received. in_vault-Keeps _)

pub update_file_status-Keeps : (file : ℕ) (status : Status) → Keeps (update_file_status file status)
unfolding update_file_status
update_file_status-Keeps file status = in_vault-Keeps _

pub claim_upload-Keeps : (file : ℕ) → Keeps (claim_upload file)
unfolding claim_upload
claim_upload-Keeps file = in_vault-Keeps _

pub delete_object-Keeps : (key : ℕ) → Keeps (delete_object key)
unfolding delete_object
delete_object-Keeps key = in_vault-Keeps _

pub open_session-Keeps :
    (env : Env) (owner : ℕ) (name : Text) (size : ℕ) (content_type : Text) (folder : Option ℕ)
    → Keeps (open_session env owner name size content_type folder)
unfolding open_session
open_session-Keeps env owner name size content_type folder = in_vault-Keeps _

pub complete_file-Keeps : (env : Env) (file owner : ℕ) → Keeps (complete_file env file owner)
unfolding complete_file
complete_file-Keeps env file owner = in_vault-Keeps _

pub ruleset statement_rules = (
  keeps_rules, update_status-Keeps, reserve_usage-Keeps, release_usage-Keeps,
  increment_pending_notify-Keeps, find_by_token-Keeps, find_by_id-Keeps, find_by_file_id-Keeps,
  find_file-Keeps, count_uploads-Keeps, count_active-Keeps, list_stale-Keeps, record_file-Keeps,
  update_file_status-Keeps, claim_upload-Keeps, delete_object-Keeps, find_folder-Keeps,
  make_folder-Keeps, open_session-Keeps, complete_file-Keeps,
)

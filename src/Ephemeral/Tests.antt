-- ===== src/Ephemeral/Tests.antt =====
-- Examples of shares and of histories, at which the theorems apply.

use bytevault.Prelude.{
  true, false, none, some, [], ◌∷◌, All, length, take, map, ◌≡◌, ◌≢◌, ◌<◌, ◌*◌, ◌+◌, ◌≤◌, refl,
  arith,
}
use bytevault.Prelude.Table.{find?, count_where, update, select}
use bytevault.Prelude.Action.{ok, err, ◌>>=◌}
use bytevault.Ephemeral.{expired, Share, Url, get_object, put_object, delete, Db, too_large, minute}
use bytevault.Ephemeral.Repository.{
  get_settings, create, storage_call, update_status, forget_progress, mark_burned,
  increment_download_and_check_burn, find_by_token, expire_past_due, presign,
}
use bytevault.Ephemeral.Upload.{
  Request, create_upload_session, create_multipart_upload_session, complete_multipart_upload,
  check_rate, password_hash, new_share, part_urls, with_part, abort_on_failure, settle_upload,
}
use bytevault.Ephemeral.Download.{
  Metadata, check_download, get_metadata, password_ok, request_download, serve_download,
  has_preview, preview_url, remove_oversize, burn_if,
}
use bytevault.Ephemeral.Purge.{
  Target, is_purgeable, select_targets, clear_keys, clear_storage_key, purge_expired_and_burned,
  purge_call, cleanup_ephemeral,
}
use bytevault.Ephemeral.Calls.{step, run, perform}
use bytevault.Ephemeral.Change.{Changes, has_token, has_id}
use bytevault.Ephemeral.RefinesPurge.{step-Changes}
use bytevault.Ephemeral.Lifecycle.{IsClosed, run-IsClosed}
use bytevault.Ephemeral.Gone.{closed-no_download}
use bytevault.Ephemeral.Bounds.{IsWf, run-IsWf}
use bytevault.Ephemeral.Answers.{IsServable, reliable, download-IsServable, servable-download}
use bytevault.Ephemeral.Race.{serve_all, checked-serve_all}
use bytevault.Ephemeral.Purged.{cleanup_ephemeral-ends}
use bytevault.Ephemeral.Targets.{purge_call-delete}
use bytevault.Ephemeral.Completion.{complete-download}
use bytevault.Ephemeral.Progress.{update_live_progress-get_metadata}
use bytevault.Prelude.Int.{pos, negsuc}
use bytevault.Ephemeral.Upload.{update_live_progress}
use bytevault.Ephemeral.{LiveProgress}
use bytevault.Ephemeral.Limits.{multipart-single_limits, IsBelowRate}
use bytevault.Ephemeral.Preview.{IsPreviewable, get_metadata-IsPreviewable}
use bytevault.Ephemeral.Samples.{
  env, share, db, now_served, in_upload, burned_share, picture, request, history, half_failed,
}

step-Changes_example :
    Changes (half_failed.faults ≢ []) half_failed.now now_served (step half_failed now_served)
step-Changes_example = step-Changes half_failed now_served

one_row-IsWf : IsWf now_served
one_row-IsWf = record {
  tokens = (tt, tt);
  ids = (tt, tt);
  below = (omega arith, tt);
  within = (record { bounded = omega arith; left = λ h. omega arith }, tt);
}

run-IsWf_example : IsWf (run now_served history)
run-IsWf_example = run-IsWf now_served history (refl, (refl, (refl, (refl, tt)))) one_row-IsWf

burned-IsClosed : IsClosed 7 (db (burned_share ∷ []))
unfolding find?
burned-IsClosed = record { present = refl; closed = ((λ h. refl), tt) }

run-IsClosed_example : IsClosed 7 (run (db (burned_share ∷ [])) history)
run-IsClosed_example = run-IsClosed 7 (db (burned_share ∷ [])) history burned-IsClosed

closed-no_download_example :
    (request_download env 7 none (reliable 40 (run (db (burned_share ∷ [])) history))).0
    ≢ ok (get_object 7005 (30 * minute))
closed-no_download_example =
    closed-no_download 7 (db (burned_share ∷ [])) history burned-IsClosed env none 40 []
      (get_object 7005 (30 * minute))

share_found : find? (has_token 7) now_served.shares ≡ some share
unfolding find?
share_found = refl

share-IsServable : IsServable env none 30 share
unfolding password_ok
share-IsServable = record { active = refl; in_time = omega arith; admitted = refl; fits = refl }

servable-download_example :
    (request_download env 7 none (reliable 30 now_served)).0 ≡ ok (get_object 7005 (30 * minute))
servable-download_example =
    servable-download env 7 none 30 now_served share share_found share-IsServable

download-IsServable_example :
    (s : Share) × (find? (has_token 7) now_served.shares ≡ some s)
    × IsServable env none 30 s
    × (get_object 7005 (30 * minute) ≡ get_object s.storage_key (30 * minute))
download-IsServable_example =
    download-IsServable env 7 none (reliable 30 now_served) (get_object 7005 (30 * minute))
      servable-download_example

-- Two downloads of a share that allows one.
checked-serve_all_example :
    let (answers, w) = serve_all 2 share (reliable 30 now_served) in
    (check_download env 7 none (reliable 30 now_served) ≡ (ok share, reliable 30 now_served))
    × (length answers ≡ 2)
    × All (λ a. a ≡ ok (get_object share.storage_key (30 * minute))) answers
    × ((last : Share) × (find? (has_id share.id) w.db.shares ≡ some last)
        × (last.download_count ≡ share.download_count + 2)
        × (last.max_downloads ≡ share.max_downloads))
checked-serve_all_example =
    checked-serve_all 2 env 7 none 30 now_served share share_found one_row-IsWf share-IsServable

abbrev in_upload_db : Db
in_upload_db = db (in_upload ∷ [])

upload_found : find? (has_token 7) in_upload_db.shares ≡ some in_upload
unfolding find?
upload_found = refl

complete-download_example :
    let d' = (complete_multipart_upload env 7 9 (reliable 20 in_upload_db)).1.db in
    (request_download env 7 none (reliable 30 d')).0
    ≡ ok (get_object in_upload.storage_key (30 * minute))
complete-download_example =
    complete-download env 7 9 20 30 none in_upload_db in_upload upload_found refl refl refl
      (omega arith) share-IsServable.admitted

few_purgeable : count_where (is_purgeable 2000) now_served.shares < 100 * 1
unfolding count_where
few_purgeable = omega arith

cleanup_ephemeral-ends_example :
    let (answer, w) = cleanup_ephemeral 1 (reliable 2000 now_served) in
    (answer ≡ ok true) × All (λ r. is_purgeable 2000 r ≡ false) w.db.shares
cleanup_ephemeral-ends_example =
    cleanup_ephemeral-ends 1 2000 now_served one_row-IsWf.ids few_purgeable

-- A multipart upload that never completed, past its expiry.
abbrev abandoned : Target
abandoned = record { id = 1; storage_key = 7005; upload_id = some 9; status = expired }

abandoned_target : (purge_expired_and_burned (reliable 2000 in_upload_db)).0 ≡ ok (abandoned ∷ [])
unfolding purge_expired_and_burned expire_past_due select_targets clear_keys clear_storage_key
    update select ◌>>=◌
abandoned_target = refl

purge_call-delete_example :
    (length (abandoned ∷ []) ≤ 100)
    × All (λ t. purge_call t ≡ delete t.storage_key) (abandoned ∷ [])
purge_call-delete_example = purge_call-delete 2000 in_upload_db (abandoned ∷ []) abandoned_target

abbrev picture_db : Db
picture_db = db (picture ∷ [])

abbrev picture_url : Url
picture_url = get_object 7005 (15 * minute)

abbrev picture_metadata : Metadata
picture_metadata = record { share = picture; progress = none; preview = some picture_url }

picture_shown : (get_metadata 7 (reliable 30 picture_db)).0 ≡ ok picture_metadata
unfolding get_metadata find_by_token has_preview preview_url presign find? ◌>>=◌
picture_shown = refl

get_metadata-IsPreviewable_example :
    (find? (has_token 7) picture_db.shares ≡ some picture)
    × (30 ≤ picture.expires_at)
    × IsPreviewable picture
    × (picture_url ≡ get_object picture.storage_key (15 * minute))
get_metadata-IsPreviewable_example =
    get_metadata-IsPreviewable 7 (reliable 30 picture_db) picture_metadata picture_url picture_shown
      refl

-- A limit of a gigabyte and a half, a file of just over one.
abbrev half_db : Db
half_db = record (db []) {
  settings = some (record {
    max_file_size = 1_610_612_736;
    max_downloads = 1;
    rate_limit = 50;
    expiry_minutes = 60;
  });
}

abbrev large : Request
large = record request { size = 1_073_741_825; ip = some 5 }

no_share : find? (has_token env.token) half_db.shares ≡ none
unfolding find?
no_share = refl

below_rate : IsBelowRate large 30 half_db
unfolding count_where
below_rate = λ ip e. omega arith

multipart-single_limits_example :
    ((share : Share) × ((create_upload_session env large (reliable 30 half_db)).0
        ≡ ok (share, put_object share.storage_key (60 * minute))))
    × ((create_multipart_upload_session env large 2 true (reliable 30 half_db)).0 ≡ err too_large)
multipart-single_limits_example =
    multipart-single_limits env large 2 true 30 half_db (omega arith) (omega arith) below_rate
      no_share

-- The history as it runs: the share is burned by its only download.
history_end :
    map (λ (r : Share). r.burned_at) (run (record (db []) { next_id = 1 }) (take 3 history)).shares
    ≡ some 30 ∷ []
unfolding run step perform create_multipart_upload_session get_settings check_rate password_hash
    new_share part_urls with_part presign abort_on_failure create storage_call find_by_token
    complete_multipart_upload settle_upload update_status forget_progress request_download
    check_download password_ok remove_oversize serve_download burn_if mark_burned
    increment_download_and_check_burn find? update ◌>>=◌
history_end = refl

update_live_progress-get_metadata_example :
    let d' = (update_live_progress 7 (pos 150) (negsuc 3) (reliable 20 in_upload_db)).1.db in
    (m : Metadata) × (p : LiveProgress) × ((get_metadata 7 (reliable 20 d')).0 ≡ ok m)
    × (m.progress ≡ some p)
    × (p.progress_pct ≤ 100)
    × (p.uploaded_bytes ≤ in_upload.file_size)
update_live_progress-get_metadata_example =
    update_live_progress-get_metadata 7 20 (pos 150) (negsuc 3) in_upload_db in_upload upload_found
      refl

-- ===== src/Ephemeral/Progress.antt =====
-- The progress that a sender reports, and that a recipient reads while the upload lasts.
use bytevault.Prelude.{ℕ, ◌≤◌, true, false, some, ◌≡◌, refl, arith, ==_refl}
use bytevault.Prelude.Int.{ℤ}
use bytevault.Prelude.Table.{find?}
use bytevault.Prelude.Action.{ok, ◌>>=◌}
use bytevault.Ephemeral.{Share, LiveProgress, Db}
use bytevault.Ephemeral.Repository.{find_by_token, is_uploading}
use bytevault.Ephemeral.Upload.{is_open_at, clamp, update_live_progress}
use bytevault.Ephemeral.Download.{Metadata, is_gone_at, has_preview, preview_url, get_metadata}
use bytevault.Ephemeral.Change.{has_token}
use bytevault.Ephemeral.Answers.{reliable}

clamp-top : (top : ℕ) (n : ℤ) → clamp top n ≤ top
clamp-top top n = ground arith

no_preview : (s : Share) → is_uploading s.status ≡ true → has_preview s ≡ false
unfolding has_preview
no_preview s h = ground arith

-- When nothing fails, whatever numbers a sender reports of an upload that is open, a recipient who asks
-- at that time reads a percentage of at most 100 and no more bytes than the share has.
pub update_live_progress-get_metadata :
    (token now : ℕ) (pct bytes : ℤ) (d : Db) (s : Share)
    → find? (has_token token) d.shares ≡ some s
    → is_open_at s now ≡ true
    → let d' = (update_live_progress token pct bytes (reliable now d)).1.db in
      (m : Metadata) × (p : LiveProgress) × ((get_metadata token (reliable now d')).0 ≡ ok m)
      × (m.progress ≡ some p)
      × (p.progress_pct ≤ 100)
      × (p.uploaded_bytes ≤ s.file_size)
unfolding update_live_progress get_metadata find_by_token preview_url ◌>>=◌
update_live_progress-get_metadata token now pct bytes d s found open_ =
    rw (found, open_, found, here, up, ==_refl token, no_preview s up)
      (_, _, refl, refl, clamp-top 100 pct, clamp-top s.file_size bytes)
  where
    up : is_uploading s.status ≡ true
    up = ground arith

    here : is_gone_at s now ≡ false
    here = ground (arith, up)

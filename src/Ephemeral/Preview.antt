-- ===== src/Ephemeral/Preview.antt =====
-- What the metadata of a share gives away: a preview is a download that nothing counts.
use bytevault.Prelude.{
  ℕ, ◌*◌, ◌≤◌, ◌<◌, Bool, true, false, not, Option, some, ◌≡◌, refl, sym, subst, ap, ◌∙◌, arith,
  is_set,
}
use bytevault.Prelude.Table.{find?}
use bytevault.Prelude.Action.{World, Result, ok, gets, pure, ◌>>=◌}
use bytevault.Prelude.Action.Answers.{bind-ok, require-ok}
use bytevault.Ephemeral.{Share, LiveProgress, Url, get_object, Db, Error, minute}
use bytevault.Ephemeral.Repository.{is_active, find_by_token, presign}
use bytevault.Ephemeral.Download.{Metadata, has_preview, preview_url, is_gone_at, get_metadata}
use bytevault.Ephemeral.Quiet.Methods.{Quiet-find_by_token}
use bytevault.Ephemeral.Refines.{found_result}
use bytevault.Ephemeral.Change.{has_token}

pub record IsPreviewable (s : Share) : Type 0 where
  pub active : is_active s.status ≡ true
  pub open_to_all : is_set s.password_hash ≡ false
  pub many : 1 < s.max_downloads
  pub small : s.file_size ≤ 10 * 1024 * 1024

has_preview-IsPreviewable : (s : Share) → has_preview s ≡ true → IsPreviewable s
unfolding has_preview
has_preview-IsPreviewable s h = record {
  active = ground arith;
  open_to_all = ground arith;
  many = ground arith;
  small = ground arith;
}

preview-ok :
    (s : Share) (b : Bool) (w : World Db) (u : Url)
    → (preview_url s b w).0 ≡ ok (some u)
    → (b ≡ true) × (u ≡ get_object s.storage_key (15 * minute))
unfolding preview_url presign ◌>>=◌
preview-ok s true w u h = (refl, ground arith)
preview-ok s false w u h = cc

abbrev Gives : ℕ → World Db → Metadata → Type 0
Gives token w m =
    (find? (has_token token) w.db.shares ≡ some m.share)
    × (w.now ≤ m.share.expires_at)
    × ((u : Url)
        → m.preview ≡ some u
        → IsPreviewable m.share × (u ≡ get_object m.share.storage_key (15 * minute)))

same_metadata : (m n : Metadata) → ◌≡◌ {A = Result Error Metadata} (ok m) (ok n) → m ≡ n
same_metadata m n h = cc

module _ (token : ℕ) (w : World Db) where
  clock :
      (now : ℕ)
      → (gets {E = Error} {D = Db} (λ t d. t) (find_by_token token w).1).0 ≡ ok now
      → now ≡ w.now
  unfolding gets
  clock now at =
      let same : (find_by_token token w).1.now ≡ now = cc in
      sym same ∙ (Quiet-find_by_token token).now w

  in_time :
      (s : Share) (now : ℕ) → not (is_gone_at s now) ≡ true → now ≡ w.now → w.now ≤ s.expires_at
  in_time s now here at = ground arith

  given :
      (s : Share) (now : ℕ) (progress : Option LiveProgress) (preview : Option Url) (v : World Db)
      → (find_by_token token w).0 ≡ ok s
      → now ≡ w.now
      → not (is_gone_at s now) ≡ true
      → (preview_url s (has_preview s) v).0 ≡ ok preview
      → Gives token w (record { share = s; progress = progress; preview = preview })
  given s now progress preview v found at here made = (
    found_result w token w s found,
    in_time s now here at,
    λ u e.
        let (shown, url) = preview-ok s (has_preview s) v u (made ∙ ap (λ p. ok p) e) in
        (has_preview-IsPreviewable s shown, url),
  )

  get_metadata-Gives : (m : Metadata) → (get_metadata token w).0 ≡ ok m → Gives token w m
  unfolding get_metadata pure
  get_metadata-Gives m h = bind-ok _ _ w m h λ s found h1. bind-ok _ _ _ m h1 λ now at h2.
      require-ok _ _ _ _ m h2 λ here h3. bind-ok _ _ _ m h3 λ progress _ h4.
        bind-ok _ _ _ m h4 λ preview made h5.
          subst (Gives token w) (same_metadata _ m h5)
            (given s now progress preview _ found (clock now at) here made)

-- Metadata with a preview, whatever fails on the way, is of a share that exists and has not expired,
-- that is active, has no password, has at most 10 MB and may be downloaded more than once; the preview
-- reads the share's object for 15 minutes.
pub get_metadata-IsPreviewable :
    (token : ℕ) (w : World Db) (m : Metadata) (u : Url)
    → (get_metadata token w).0 ≡ ok m
    → m.preview ≡ some u
    → (find? (has_token token) w.db.shares ≡ some m.share)
      × (w.now ≤ m.share.expires_at)
      × IsPreviewable m.share
      × (u ≡ get_object m.share.storage_key (15 * minute))
get_metadata-IsPreviewable token w m u h shown =
    let (found, in_time_, gives) = get_metadata-Gives token w m h in
    let (previewable, url) = gives u shown in (found, in_time_, previewable, url)

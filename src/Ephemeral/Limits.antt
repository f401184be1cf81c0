-- ===== src/Ephemeral/Limits.antt =====
-- The sizes that the two ways of uploading accept.
use bytevault.Prelude.{
  ℕ, zero, suc, ◌+◌, ◌&&◌, Option, some, ltb, points_to, ◌*◌, ◌/◌, ◌≤◌, ◌<◌, Bool, true, false,
  none, ◌≡◌, refl, arith, leb,
}
use bytevault.Prelude.Action.{ok, err, ◌>>=◌}
use bytevault.Prelude.Table.{find?, count_where}
use bytevault.Ephemeral.{Share, put_object, Db, too_large, Env, gib, minute}
use bytevault.Ephemeral.Repository.{
  get_settings, settings_or_default, presign, create, count_uploads_by_ip_in_window, day,
}
use bytevault.Ephemeral.Upload.{
  Request, check_rate, create_upload_session, create_multipart_upload_session,
}
use bytevault.Ephemeral.Change.{has_token}
use bytevault.Ephemeral.Answers.{reliable}

abbrev pub limit_in : Db → ℕ
limit_in d = (settings_or_default d.settings).max_file_size

multipart_refuses :
    (env : Env) (r : Request) (n : ℕ) (live : Bool) (now : ℕ) (d : Db)
    → limit_in d / gib * gib < r.size
    → (create_multipart_upload_session env r n live (reliable now d)).0 ≡ err too_large
unfolding create_multipart_upload_session get_settings ◌>>=◌
multipart_refuses env r n live now d over = rw refused
  where
    refused : leb r.size (limit_in d / gib * gib) ≡ false
    refused = ground arith

-- The address, if there is one, has opened fewer uploads within a day than the settings allow.
abbrev pub IsBelowRate : Request → ℕ → Db → Type 0
IsBelowRate r now d =
    (ip : ℕ)
    → r.ip ≡ some (suc ip)
    → count_where (λ s. points_to s.ip_address (suc ip) && ltb now (s.created_at + day)) d.shares
      < (settings_or_default d.settings).rate_limit

passes_rate :
    (o : Option ℕ) (now limit : ℕ) (d : Db)
    → ((ip : ℕ)
        → o ≡ some (suc ip)
        → count_where
            (λ s. points_to s.ip_address (suc ip) && ltb now (s.created_at + day))
            d.shares
          < limit)
    → check_rate o limit (reliable now d) ≡ (ok tt, reliable now d)
unfolding check_rate count_uploads_by_ip_in_window ◌>>=◌
passes_rate none now limit d h = refl
passes_rate (some zero) now limit d h = refl
passes_rate (some (suc ip)) now limit d h = rw (below _ _ (h ip refl)) refl
  where
    below : (a b : ℕ) → a < b → ltb a b ≡ true
    below a b e = ground arith

single_accepts :
    (env : Env) (r : Request) (now : ℕ) (d : Db)
    → r.size ≤ limit_in d
    → IsBelowRate r now d
    → find? (has_token env.token) d.shares ≡ none
    → (share : Share) × ((create_upload_session env r (reliable now d)).0
        ≡ ok (share, put_object share.storage_key (60 * minute)))
unfolding create_upload_session get_settings presign create ◌>>=◌
single_accepts env r now d fits rate fresh =
    rw (accepted, passes_rate r.ip now _ d rate, fresh) (_, refl)
  where
    accepted : leb r.size (limit_in d) ≡ true
    accepted = ground arith

-- When nothing fails, a file within the limit, but larger than the limit rounded down to whole gigabytes,
-- is accepted by a single upload and refused by a multipart upload as too large, of the same request at the
-- same time, by an address below the rate limit and with a new token.
pub multipart-single_limits :
    (env : Env) (r : Request) (n : ℕ) (live : Bool) (now : ℕ) (d : Db)
    → limit_in d / gib * gib < r.size
    → r.size ≤ limit_in d
    → IsBelowRate r now d
    → find? (has_token env.token) d.shares ≡ none
    → ((share : Share) × ((create_upload_session env r (reliable now d)).0
          ≡ ok (share, put_object share.storage_key (60 * minute))))
      × ((create_multipart_upload_session env r n live (reliable now d)).0 ≡ err too_large)
multipart-single_limits env r n live now d over fits rate fresh =
    (single_accepts env r now d fits rate fresh, multipart_refuses env r n live now d over)

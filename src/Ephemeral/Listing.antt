-- ===== src/Ephemeral/Listing.antt =====
-- `ListAllForAdmin` of internal/repository/ephemeral_share_repository.go: a listing that first marks
-- what is past due.
use bytevault.Prelude.{
  ℕ, zero, suc, ◌&&◌, none, List, [], ◌∷◌, length, take, map, ltb, if◌then◌else◌,
}
use bytevault.Prelude.Action.{Result, ok, err, pure, query, attempt, ignore, ◌>>=◌, ◌>>◌}
use bytevault.Ephemeral.{Share, expired, Error, query_failed, Service}
use bytevault.Ephemeral.Repository.{is_open, expire_past_due}

abbrev pub drop : {A : Type 0} → ℕ → List A → List A
drop zero xs = xs
drop (suc n) [] = []
drop (suc n) (x ∷ xs) = drop n xs

-- ORDER BY created_at DESC
abbrev pub insert_by_age : Share → List Share → List Share
insert_by_age s [] = s ∷ []
insert_by_age s (r ∷ rs) =
    if ltb s.created_at r.created_at then r ∷ insert_by_age s rs else s ∷ r ∷ rs

abbrev pub by_age : List Share → List Share
by_age [] = []
by_age (r ∷ rs) = insert_by_age r (by_age rs)

-- A row as it is listed: the columns that are not selected are empty.
abbrev pub listed : ℕ → Share → Share
listed now r = record r {
  status = if is_open r.status && ltb r.expires_at now then expired else r.status;
  upload_id = none;
  password_hash = none;
}

-- A failed count is listed as 0.
abbrev pub count_or_zero : Result Error ℕ → ℕ
count_or_zero (ok n) = n
count_or_zero (err e) = 0

unfoldable pub list_all_for_admin : ℕ → ℕ → Service (List Share × ℕ)
list_all_for_admin limit offset = do
  ignore expire_past_due
  total ← attempt (query query_failed (λ now d. (length d.shares, d)))
  rows ←
      query query_failed
        (λ now d. (map (listed now) (take limit (drop offset (by_age d.shares))), d))
  pure (rows, count_or_zero total)

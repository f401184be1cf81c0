-- ===== src/Ephemeral/Lifecycle.antt =====
-- A share that is burned or expired, under any history of calls.
use bytevault.Prelude.{
  ℕ, Bool, true, false, Option, none, some, List, [], ◌∷◌, All, ◌==◌, ◌≡◌, ◌≢◌, inl, inr, refl, sym,
  subst, ap, ◌∙◌, arith, is_some, Bool-cases, ==_iff, if◌then◌else◌,
}
use bytevault.Prelude.Table.{
  find?, update, delete, All-update, All-delete, All-find?, find?-delete, is_some-find?-update,
}
use bytevault.Ephemeral.{Status, uploading, burned, Share, Db}
use bytevault.Ephemeral.Repository.{is_uploading, is_open, stored, count_download}
use bytevault.Ephemeral.Purge.{burned_or_expired}
use bytevault.Ephemeral.Calls.{Event, step, run}
use bytevault.Ephemeral.Change.{
  has_token, has_id, Change, insert, remove, activate, burn, count, count_and_burn, expire,
  clear_key, Changes, start, next_change,
}
use bytevault.Ephemeral.RefinesPurge.{step-Changes}

-- The share of a token is there and is burned or expired.
pub record IsClosed (token : ℕ) (d : Db) : Type 0 where
  pub present : is_some (find? (has_token token) d.shares) ≡ true
  pub closed : All (λ r. r.token ≡ token → is_open r.status ≡ false) d.shares

module _ (token : ℕ) where
  abbrev Shut : Share → Type 0
  Shut r = r.token ≡ token → is_open r.status ≡ false

  update-IsClosed :
      (d d' : Db) (q : Share → Bool) (f : Share → Share)
      → ((r : Share) → (f r).token ≡ r.token)
      → ((r : Share) → q r ≡ true → Shut r → Shut (f r))
      → d'.shares ≡ update q f d.shares
      → IsClosed token d
      → IsClosed token d'
  update-IsClosed d d' q f same keep e c = record {
    present =
        subst (λ rs. is_some (find? (has_token token) rs) ≡ true) (sym e)
          (is_some-find?-update (has_token token) q f d.shares (λ r. ap (λ t. t == token) (same r))
            ∙ c.present);
    closed = subst (All Shut) (sym e) (All-update Shut q f d.shares keep c.closed);
  }

  -- A row that is being uploaded is not the closed one.
  other_token :
      (t : ℕ) (d : Db) (s r : Share)
      → IsClosed token d
      → find? (has_token t) d.shares ≡ some s
      → is_uploading s.status ≡ true
      → has_token t r ≡ true
      → r.token ≢ token
  other_token t d s r c e up here same =
      let (shut, at) = All-find? Shut (has_token t) d.shares s c.closed e in
      not_both s.status up (shut ((==_iff _ _).0 at ∙ sym ((==_iff _ _).0 here) ∙ same))
    where
      not_both : (st : Status) → is_uploading st ≡ true → is_open st ≡ false → ⊥
      not_both uploading u o = cc
      not_both st u o = ground arith

  delete-IsClosed :
      (d d' : Db) (q : Share → Bool)
      → ((r : Share) → q r ≡ true → r.token ≢ token)
      → d'.shares ≡ delete q d.shares
      → IsClosed token d
      → IsClosed token d'
  delete-IsClosed d d' q others e c = record {
    present =
        subst (λ rs. is_some (find? (has_token token) rs) ≡ true) (sym e)
          (rw (find?-delete (has_token token) q d.shares (λ r h. not_selected r h)) c.present);
    closed = subst (All Shut) (sym e) (All-delete Shut q d.shares c.closed);
  }
    where
      not_selected : (r : Share) → has_token token r ≡ true → q r ≡ false
      not_selected r h = elim (Bool-cases (q r)) [
        | inl t ↦ absurd (others r t ((==_iff _ _).0 h))
        | inr t ↦ t
      ]

  insert-IsClosed :
      (d d' : Db) (s t : Share)
      → t.token ≡ s.token
      → find? (has_token s.token) d.shares ≡ none
      → d'.shares ≡ t ∷ d.shares
      → IsClosed token d
      → IsClosed token d'
  unfolding find?
  insert-IsClosed d d' s t same fresh e c = record {
    present =
        subst (λ rs. is_some (find? (has_token token) rs) ≡ true) (sym e)
          (later (t.token == token) _ c.present);
    closed = subst (All Shut) (sym e) ((λ h. absurd (differ h)), c.closed);
  }
    where
      later :
          (b : Bool) (o : Option Share)
          → is_some o ≡ true
          → is_some (if b then some t else o) ≡ true
      later true o h = refl
      later false o h = h

      differ : t.token ≢ token
      differ h =
          let gone : is_some (find? (has_token token) d.shares) ≡ false =
            subst (λ k. is_some (find? (has_token k) d.shares) ≡ false) (sym same ∙ h) (rw fresh) in
          let both : true ≡ false = sym c.present ∙ gone in cc

  pub Change-IsClosed :
      {lossy : Type 0} {now : ℕ} {d d' : Db}
      → Change lossy now d d'
      → IsClosed token d
      → IsClosed token d'
  Change-IsClosed {now} {d} {d'} (insert s z fresh e n) c =
      insert-IsClosed d d' s (stored s d.next_id now) refl fresh e c
  Change-IsClosed {d} {d'} (remove t s f up e n) c =
      delete-IsClosed d d' _ (λ r h. other_token t d s r c f up h) e c
  Change-IsClosed {d} {d'} (activate t s f up e n) c =
      update-IsClosed d d' _ _ (λ r. refl)
        (λ r h k same. absurd (other_token t d s r c f up h same)) e c
  Change-IsClosed {d} {d'} (burn t e n) c =
      update-IsClosed d d' _ _ (λ r. refl) (λ r h k same. refl) e c
  Change-IsClosed {d} {d'} (count t s b f a g l e n) c =
      update-IsClosed d d' _ _ (λ r. refl) (λ r h k. k) e c
  Change-IsClosed {now} {d} {d'} (count_and_burn t s b f a g l e n) c =
      update-IsClosed counted d' _ _ (λ r. refl) (λ r h k same. refl) e
        (update-IsClosed d counted _ _ (λ r. refl) (λ r h k. k) refl c)
    where
      counted : Db
      counted = record d { shares = update (has_id s.id) count_download d.shares }
  Change-IsClosed {d} {d'} (expire e n) c =
      update-IsClosed d d' _ _ (λ r. refl) (λ r h k same. refl) e c
  Change-IsClosed {d} {d'} (clear_key i e n) c =
      update-IsClosed d d' _ _ (λ r. refl) (λ r h k same. shut_status r.status) e c
    where
      shut_status : (st : Status) → is_open (burned_or_expired st) ≡ false
      shut_status burned = refl
      shut_status _ = refl

  pub Changes-IsClosed :
      {lossy : Type 0} {now : ℕ} {d d' : Db}
      → Changes lossy now d d'
      → IsClosed token d
      → IsClosed token d'
  Changes-IsClosed (start e n) c = record {
    present = subst (λ rs. is_some (find? (has_token token) rs) ≡ true) (sym e) c.present;
    closed = subst (All Shut) (sym e) c.closed;
  }
  Changes-IsClosed (next_change cs ch) c = Change-IsClosed ch (Changes-IsClosed cs c)

  -- A share that is burned or expired stays so, and stays in the table, whatever calls follow and
  -- whatever fails in them.
  pub run-IsClosed : (d : Db) (es : List Event) → IsClosed token d → IsClosed token (run d es)
  unfolding run
  run-IsClosed d [] c = c
  run-IsClosed d (e ∷ es) c = run-IsClosed (step e d) es (Changes-IsClosed (step-Changes e d) c)

pub closed_not_open :
    (token : ℕ) (d : Db) (r : Share)
    → IsClosed token d
    → find? (has_token token) d.shares ≡ some r
    → is_open r.status ≡ false
closed_not_open token d r c e =
    let (shut, at) = All-find? (Shut token) (has_token token) d.shares r c.closed e in
    shut ((==_iff _ _).0 at)

-- ===== src/Invites/Admission.antt =====
-- Who may upload through an invite.
use bytevault.Prelude.{
  ℕ, ◌<◌, ◌≤◌, Bool, true, false, Option, none, some, ◌≡◌, ◌⊎◌, inl, inr, refl, subst, ap, ◌∙◌,
  arith, Bool-cases, ltb, ◌==◌, ==_iff, is_set,
}
use bytevault.Prelude.Table.{find?}
use bytevault.Prelude.Action.{World, ok, or_raise, require, ◌>>=◌}
use bytevault.Prelude.Action.Answers.{bind-ok, require-ok, query-ok}
use bytevault.Prelude.Text.{Text}
use bytevault.Vault.{File}
use bytevault.Invites.{Invite, Db, Error, Env}
use bytevault.Invites.Repository.{is_active, find_by_token}
use bytevault.Invites.Guest.{
  require_open, validate_session, validate_guest_session, live, is_blocked,
  guest_create_upload_session,
}

-- A session of Redis that was opened for the invite and has not lapsed.
pub record HasSession (id session now : ℕ) (d : Db) : Type 0 where
  pub until : ℕ
  pub stored : d.sessions session ≡ some (id, until)
  pub in_time : now < until

find_result :
    (token : ℕ) (w : World Db) (i : Invite)
    → (find_by_token token w).0 ≡ ok i
    → find? (λ r. r.token == token) w.db.invites ≡ some i
unfolding find_by_token ◌>>=◌
find_result token w i h = ground arith

find_world :
    (token : ℕ) (w : World Db)
    → ((find_by_token token w).1.db ≡ w.db) × ((find_by_token token w).1.now ≡ w.now)
unfolding find_by_token ◌>>=◌
find_world token w = (ground arith, ground arith)

open_result :
    (i : Invite) (w : World Db)
    → (require_open i w).0 ≡ ok tt
    → (is_active i.status ≡ true) × (ltb i.expires_at w.now ≡ false) × ((require_open i w).1 ≡ w)
unfolding require_open ◌>>=◌
open_result i w h = elim (Bool-cases (is_active i.status)) [
  | inl a ↦ elim (Bool-cases (ltb i.expires_at w.now)) [
    | inl t ↦ absurd (late a t)
    | inr t ↦ (a, t, rw (a, t) refl)
  ]
  | inr a ↦ absurd (closed a)
]
  where
    closed : is_active i.status ≡ false → ⊥
    closed a = let z = rw a at h in cc

    late : is_active i.status ≡ true → ltb i.expires_at w.now ≡ true → ⊥
    late a t = ground arith

live-some :
    (now a : ℕ) (o : Option (ℕ × ℕ))
    → live now o ≡ some a
    → (until : ℕ) × (o ≡ some (a, until)) × (now < until)
live-some now a none h = cc
live-some now a (some (b, until)) h = elim (Bool-cases (ltb now until)) [
  | inl t ↦ let same : some b ≡ some a = rw t at h in (until, cc, ground arith)
  | inr t ↦ let none_ : none ≡ some a = rw t at h in absurd (differ none_)
]
  where
    differ : ◌≡◌ {A = Option ℕ} none (some a) → ⊥
    differ h = cc

present : (o : Option ℕ) (e : Error) (w : World Db) (a : ℕ) → (or_raise o e w).0 ≡ ok a → o ≡ some a
unfolding or_raise
present none e w a h = cc
present (some b) e w a h = cc

held : (b : Bool) (e : Error) (w : World Db) → (require b e w).0 ≡ ok tt → b ≡ true
unfolding require
held true e w h = refl
held false e w h = cc

session_result :
    (i : Invite) (session : ℕ) (b : Bool) (w : World Db)
    → (validate_session i session b w).0 ≡ ok tt
    → (b ≡ false) ⊎ HasSession i.id session w.now w.db
unfolding validate_session
session_result i session false w h = inl refl
session_result i session true w h = inr (
    require-ok _ _ _ w tt h λ given h1. bind-ok _ _ w tt h1 λ found read h2.
      bind-ok _ _ _ tt h2 λ id there h3.
        has found id (query-ok _ _ w found read) (present found _ _ id there)
          ((==_iff id i.id).0 (held _ _ _ h3)))
  where
    has :
        (found : Option ℕ) (id : ℕ)
        → live w.now (w.db.sessions session) ≡ found
        → found ≡ some id
        → id ≡ i.id
        → HasSession i.id session w.now w.db
    has found id read there same =
        let (until, stored, in_time) =
          live-some w.now i.id (w.db.sessions session) (read ∙ there ∙ ap some same) in
        record { until = until; stored = stored; in_time = in_time }

-- An upload session that a guest gets, whatever fails on the way, is of an invite that exists, is active
-- and is not past its expiry; if the invite has a passcode, then the guest's session was opened for this
-- invite and has not lapsed; and the name of the file is not of a blocked type.
pub guest_create-HasSession :
    (env : Env) (token : ℕ) (name : Text) (size : ℕ) (content_type : Text) (session ip : ℕ)
    (w : World Db) (r : File × ℕ)
    → (guest_create_upload_session env token name size content_type session ip w).0 ≡ ok r
    → (i : Invite) × (find? (λ j. j.token == token) w.db.invites ≡ some i)
      × (is_active i.status ≡ true)
      × (w.now ≤ i.expires_at)
      × ((is_set i.passcode_hash ≡ false) ⊎ HasSession i.id session w.now w.db)
      × (is_blocked name ≡ false)
unfolding guest_create_upload_session validate_guest_session
guest_create-HasSession env token name size content_type session ip w r h =
    bind-ok _ _ w r h λ i found h1. bind-ok _ _ _ r h1 λ _ opened h2.
      bind-ok _ _ _ r h2 λ _ valid h3. require-ok _ _ _ _ r h3 λ allowed h4.
        let (open_, in_time, same) = open_result i _ opened in
        let (db, now) = find_world token w in
        (
          i,
          find_result token w i found,
          open_,
          ground (arith, now),
          subst (λ n. (is_set i.passcode_hash ≡ false) ⊎ HasSession i.id session n w.db) now
              (subst
                (λ d.
                  (is_set i.passcode_hash ≡ false)
                  ⊎ HasSession i.id session (find_by_token token w).1.now d)
                db
                (subst
                  (λ (v : World Db).
                    (is_set i.passcode_hash ≡ false) ⊎ HasSession i.id session v.now v.db)
                  same (session_result i session _ _ valid))),
          ground arith,
        )

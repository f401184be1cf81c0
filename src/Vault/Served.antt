-- ===== src/Vault/Served.antt =====
-- The bytes served to one user from one file are counted at most once in thirty seconds.
use bytevault.Prelude.{
  ap, ℕ, ◌+◌, ◌*◌, ◌≤◌, Bool, true, false, ◌&&◌, Option, none, some, List, [], ◌∷◌, ◌≡◌, refl, sym,
  ◌∙◌, subst, arith, inl, inr, All, All-imp, ◌==◌, ==_iff, ==_refl, if◌then◌else◌, Bool-cases,
}
use bytevault.Prelude.Action.{Result, ok, err, modify}
use bytevault.Vault.{Db, Egress}
use bytevault.Vault.Access.{second, is_due, same_user, stored, should_record_egress}

-- The requests that are counted, of those that come one after the other.
abbrev pub answer : {E : Type 0} → Result E Bool → Bool
answer (ok b) = b
answer (err e) = false

abbrev pub after : Egress → Db → Bool × Db
after c d =
    let (r, w) =
      should_record_egress c.user_id c.file_id (record { now = c.at; faults = []; db = d }) in
    (answer r, w.db)

unfoldable pub counted : List Egress → Db → List Egress
counted [] d = []
counted (c ∷ cs) d = let rest = counted cs (after c d).1 in if (after c d).0 then c ∷ rest else rest

abbrev pub same_key : Egress → Egress → Bool
same_key a b = same_user a.user_id b.user_id && a.file_id == b.file_id

-- Later ones with the same key are at least thirty seconds later.
abbrev pub Spaced : List Egress → Type 0
Spaced [] = Unit
Spaced (c ∷ cs) = All (λ a. same_key c a ≡ true → c.at + 30 * second ≤ a.at) cs × Spaced cs

-- What is counted for a key is at least thirty seconds after a time.
abbrev Late : Option ℕ → ℕ → ℕ → List Egress → Type 0
Late u f t cs =
    All (λ a. (same_user u a.user_id && f == a.file_id) ≡ true → t + 30 * second ≤ a.at) cs

due_after : (now t : ℕ) → is_due now (some t) ≡ true → t + 30 * second ≤ now
due_after now t h = ground arith

later : (t now at : ℕ) → t + 30 * second ≤ now → now + 30 * second ≤ at → t + 30 * second ≤ at
later t now at h k = omega (arith, h, k)

same_user_eq : (u v : Option ℕ) → same_user u v ≡ true → u ≡ v
same_user_eq none none h = refl
same_user_eq none (some v) h = cc
same_user_eq (some u) none h = cc
same_user_eq (some u) (some v) h = ap some ((==_iff u v).0 h)

same_user_refl : (u : Option ℕ) → same_user u u ≡ true
same_user_refl none = refl
same_user_refl (some u) = ==_refl u

both : (a b : Bool) → (a && b) ≡ true → (a ≡ true) × (b ≡ true)
both a b h = (ground arith, ground arith)

counted-due :
    (c : Egress) (cs : List Egress) (d : Db)
    → is_due c.at (d.egress_dedupe c.user_id c.file_id) ≡ true
    → counted (c ∷ cs) d
      ≡ c
        ∷ counted cs (record d { egress_dedupe = stored c.user_id c.file_id c.at d.egress_dedupe })
unfolding counted should_record_egress modify
counted-due c cs d e = rw e refl

counted-early :
    (c : Egress) (cs : List Egress) (d : Db)
    → is_due c.at (d.egress_dedupe c.user_id c.file_id) ≡ false
    → counted (c ∷ cs) d ≡ counted cs d
unfolding counted should_record_egress modify
counted-early c cs d e = rw e refl

counted-Late :
    (u : Option ℕ) (f t : ℕ) (cs : List Egress) (d : Db)
    → d.egress_dedupe u f ≡ some t
    → Late u f t (counted cs d)
unfolding counted
counted-Late u f t [] d h = tt
counted-Late u f t (c ∷ cs) d h =
    elim (Bool-cases (is_due c.at (d.egress_dedupe c.user_id c.file_id))) [
      | inl e ↦
          rw (counted-due c cs d e) (elim (Bool-cases (same_user u c.user_id && f == c.file_id)) [
            | inl k ↦
                let (users, files) = both _ _ k in
                let last : d.egress_dedupe c.user_id c.file_id ≡ some t =
                  subst (λ x. d.egress_dedupe x c.file_id ≡ some t) (same_user_eq u c.user_id users)
                    (subst (λ x. d.egress_dedupe u x ≡ some t) ((==_iff _ _).0 files) h) in
                let now = due_after c.at t (subst (λ o. is_due c.at o ≡ true) last e) in
                (
                  (λ x. now),
                  All-imp (λ a n x. later t c.at a.at now (n x)) _
                      (counted-Late u f c.at cs _ (rw k refl)),
                )
            | inr k ↦ ((λ x. absurd (apart (sym x ∙ k))), counted-Late u f t cs _ (rw k h))
          ])
      | inr e ↦ rw (counted-early c cs d e) (counted-Late u f t cs d h)
    ]
  where
    apart : true ≡ false → ⊥
    apart z = cc

-- However requests follow each other, those of them that are counted for the same user, or for the public,
-- and the same file are at least thirty seconds apart.
pub counted-Spaced : (cs : List Egress) (d : Db) → Spaced (counted cs d)
unfolding counted
counted-Spaced [] d = tt
counted-Spaced (c ∷ cs) d = elim (Bool-cases (is_due c.at (d.egress_dedupe c.user_id c.file_id))) [
  | inl e ↦
      let stored_now : (same_user c.user_id c.user_id && c.file_id == c.file_id) ≡ true =
        rw (same_user_refl c.user_id, ==_refl c.file_id) refl in
      rw (counted-due c cs d e)
        (counted-Late c.user_id c.file_id c.at cs _ (rw stored_now refl), counted-Spaced cs _)
  | inr e ↦ rw (counted-early c cs d e) (counted-Spaced cs d)
]

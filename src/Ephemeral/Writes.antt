-- ===== src/Ephemeral/Writes.antt =====
-- Single writes to the table of shares, as changes of the state machine.
use bytevault.Prelude.{
  ℕ, Bool, true, false, List, [], ◌≡◌, ◌≢◌, ◌⊎◌, inl, inr, refl, subst, ap, ◌∙◌, Option-cases,
}
use bytevault.Prelude.Table.{find?}
use bytevault.Prelude.Action.{World, Result, ok, err, query, continue, settle, next_fault, ◌>>=◌}
use bytevault.Prelude.Action.Leads.{Leads}
use bytevault.Ephemeral.{Share, Db, Error, Service}
use bytevault.Ephemeral.Repository.{create, insert_row}
use bytevault.Ephemeral.Change.{
  has_token, Change, insert, remove, activate, burn, count, count_and_burn, expire,
  clear_key as clear_key_of, Change-same, Changes-same, next_change, Quiet, Evolved,
}
use bytevault.Ephemeral.Quiet.{Quiet-or_raise}

Change-map :
    {l l' : Type 0} {now : ℕ} {d d' : Db} → (l → l') → Change l now d d' → Change l' now d d'
Change-map f (insert s c g p q) = insert s c g p q
Change-map f (remove t s g u p q) = remove t s g u p q
Change-map f (activate t s g u p q) = activate t s g u p q
Change-map f (burn t p q) = burn t p q
Change-map f (count t s b g a h (inl e) p q) = count t s b g a h (inl e) p q
Change-map f (count t s b g a h (inr x) p q) = count t s b g a h (inr (f x)) p q
Change-map f (count_and_burn t s b g a h l p q) = count_and_burn t s b g a h l p q
Change-map f (expire p q) = expire p q
Change-map f (clear_key_of i p q) = clear_key_of i p q

-- What one write does: nothing, or one change.
abbrev pub Wrote : World Db → World Db → Type 0
Wrote w w' =
    (((w'.db.shares ≡ w.db.shares) × (w'.db.next_id ≡ w.db.next_id))
      ⊎ Change (w.faults ≢ []) w.now w.db w'.db)
    × (w'.now ≡ w.now)
    × (w.faults ≡ [] → w'.faults ≡ [])

module _ (s : World Db) where
  pub Evolved-Wrote : (w w' : World Db) → Evolved s w → Wrote w w' → Evolved s w'
  Evolved-Wrote w w' e (inl (p, q), t, f) = record {
    changes = Changes-same e.changes p q;
    now = t ∙ e.now;
    faults = λ h. f (e.faults h);
  }
  Evolved-Wrote w w' e (inr c, t, f) = record {
    changes = next_change e.changes (
        subst (λ n. Change (s.faults ≢ []) n w.db w'.db) e.now
          (Change-map (λ bad h. bad (e.faults h)) c));
    now = t ∙ e.now;
    faults = λ h. f (e.faults h);
  }

  pub Leads-Wrote :
      {A : Type 0} (m : Service A)
      → ((w : World Db) → Wrote w (m w).1)
      → Leads (Evolved s) (Evolved s) m
  Leads-Wrote m h = record { at = λ w e. Evolved-Wrote w _ e (h w) }

abbrev pub SameTable : Db → Db → Type 0
SameTable d d' = (d'.shares ≡ d.shares) × (d'.next_id ≡ d.next_id)

settle-Wrote :
    {A : Type 0} (b : Bool) (e : Error) (bs : List Bool) (w : World Db) (r : A × Db)
    → (w.faults ≡ [] → bs ≡ [])
    → SameTable w.db r.1 ⊎ Change (w.faults ≢ []) w.now w.db r.1
    → Wrote w (settle b e bs w r).1
settle-Wrote true e bs w r g h = (inl (refl, refl), refl, g)
settle-Wrote false e bs w r g (inl h) = (inl h, refl, g)
settle-Wrote false e bs w r g (inr c) = (inr c, refl, g)

pub query-Wrote :
    {A : Type 0} (e : Error) (f : ℕ → Db → A × Db) (w : World Db)
    → SameTable w.db (f w.now w.db).1 ⊎ Change (w.faults ≢ []) w.now w.db (f w.now w.db).1
    → Wrote w (query e f w).1
unfolding ◌>>=◌
query-Wrote e f w h =
    settle-Wrote (next_fault w.faults).0 e (next_fault w.faults).1 w (f w.now w.db)
      (λ g. ap (λ l. (next_fault l).1) g) h

-- After a write, an action that writes no share.
Wrote-bind :
    {A B : Type 0} (m : Service A) (f : A → Service B) (w : World Db)
    → Wrote w (m w).1
    → ((a : A) → Quiet (f a))
    → Wrote w ((m >>= f) w).1
unfolding ◌>>=◌
Wrote-bind {A = A} m f w h q = go (m w) h
  where
    go : (r : Result Error A × World Db) → Wrote w r.1 → Wrote w (continue r.0 f r.1).1
    go (ok a, v) (inl (x, y), t, g) =
        (inl ((q a).shares v ∙ x, (q a).next_id v ∙ y), (q a).now v ∙ t, λ h. (q a).faults v (g h))
    go (ok a, v) (inr c, t, g) = (
      inr (Change-same c ((q a).shares v) ((q a).next_id v)),
      (q a).now v ∙ t,
      λ h. (q a).faults v (g h),
    )
    go (err e, v) h = h

insert-Change :
    (r : Share) (now : ℕ) (d : Db) {lossy : Type 0}
    → r.download_count ≡ 0
    → SameTable d (insert_row r now d).1 ⊎ Change lossy now d (insert_row r now d).1
insert-Change r now d z = elim (Option-cases (find? (has_token r.token) d.shares)) [
  | inl fresh ↦ rw fresh (inr (insert r z fresh refl refl))
  | inr (x, e) ↦ rw e (inl (refl, refl))
]

pub create-Wrote : (r : Share) (w : World Db) → r.download_count ≡ 0 → Wrote w (create r w).1
unfolding create
create-Wrote r w z =
    Wrote-bind _ _ w (query-Wrote _ _ w (insert-Change r w.now w.db z)) (λ o. Quiet-or_raise o _)

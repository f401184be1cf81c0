-- ===== src/Vault/Ownership.antt =====
-- The files of a user, under what others do: the statements.
use bytevault.Prelude.{
  ℕ, ◌<◌, Bool, false, Option, none, some, List, [], ◌∷◌, ◌≡◌, ◌≢◌, refl, sym, ◌∙◌, ap, subst,
  arith, inl, inr, All, All-imp, map, ◌==◌, ==_iff, if◌then◌else◌, Bool-cases,
}
use bytevault.Prelude.Text.{Text}
use bytevault.Prelude.Table.{find?, update, select, All-update, All-find?}
use bytevault.Prelude.Table.Keys.{Distinct, Distinct-update, by_key, find?-by_key}
use bytevault.Prelude.Table.Counts.{found_by_key}
use bytevault.Prelude.Action.{pure, require, or_raise, ◌>>=◌, ◌>>◌}
use bytevault.Prelude.Action.Keeps.{
  Keeps, Finds, query-Keeps, require-Finds, read-Finds, then-Finds, bind-Finds,
}
use bytevault.Vault.{File, Db, Error, Service}
use bytevault.Vault.FileRepository.{
  is_live_id, is_named, find_by_filename_and_folder, insert_file, create, find_by_id, update_file,
  count_download, increment_downloads,
}
use bytevault.Vault.Completion.{find_own}
use bytevault.Vault.Owner.{find_mine}

abbrev pub id_of : File → ℕ
id_of f = f.id

abbrev pub is_owned : ℕ → File → Bool
is_owned user f = f.user_id == user

differ : (a b : ℕ) → a ≢ b → (a == b) ≡ false
differ a b h = ground (arith, h)

-- A file without the number of its downloads, which anybody who downloads it raises.
abbrev pub uncounted : File → File
uncounted f = record f { downloads = 0 }

-- The user's files but for their downloads are the given ones, and the ids are those of a table.
pub record Kept (user : ℕ) (fs : List File) (d : Db) : Type 0 where
  pub owned : map uncounted (select (is_owned user) d.files) ≡ fs
  pub distinct : Distinct id_of d.files
  pub below : All (λ f. f.id < d.next_file) d.files

-- Also the file with an id, if there is one, is not the user's.
pub record Apart (user : ℕ) (fs : List File) (id : ℕ) (d : Db) : Type 0 where
  pub kept : Kept user fs d
  pub foreign : All (λ f. f.id ≡ id → f.user_id ≢ user) d.files

select-update :
    (user id : ℕ) (g : File → File) (rs : List File)
    → ((f : File) → (g f).user_id ≡ f.user_id)
    → All (λ f. f.id ≡ id → f.user_id ≢ user) rs
    → select (is_owned user) (update (λ r. r.id == id) g rs) ≡ select (is_owned user) rs
unfolding select update
select-update user id g [] same h = refl
select-update user id g (r ∷ rs) same h =
    let ih = select-update user id g rs same h.1 in
    elim (Bool-cases (r.id == id)) [
      | inl e ↦
          let other : (r.user_id == user) ≡ false = differ _ _ (h.0 ((==_iff _ _).0 e)) in
          rw (e, same r, other) ih
      | inr e ↦ rw e (ap (λ fs. if is_owned user r then r ∷ fs else fs) ih)
    ]

select-count :
    (user : ℕ) (p : File → Bool) (rs : List File) (now : ℕ)
    → map uncounted (select (is_owned user) (update p (count_download now) rs))
      ≡ map uncounted (select (is_owned user) rs)
unfolding select update
select-count user p [] now = refl
select-count user p (r ∷ rs) now =
    let ih = select-count user p rs now in
    elim (Bool-cases (p r)) [
      | inl e ↦ elim (Bool-cases (r.user_id == user)) [
        | inl o ↦ rw (e, o) (ap (◌∷◌ (uncounted r)) ih)
        | inr o ↦ rw (e, o) ih
      ]
      | inr e ↦ elim (Bool-cases (r.user_id == user)) [
        | inl o ↦ rw (e, o) (ap (◌∷◌ (uncounted r)) ih)
        | inr o ↦ rw (e, o) ih
      ]
    ]

module _ (user : ℕ) (fs : List File) where
  -- A download changes no more than the number of downloads.
  pub count-Keeps : (id : ℕ) → Keeps (Kept user fs) (increment_downloads id)
  unfolding increment_downloads update_file
  count-Keeps id = query-Keeps _ _ λ n d h. record {
    owned = select-count user (λ r. r.id == id) d.files n ∙ h.owned;
    distinct = Distinct-update id_of _ (count_download n) d.files (λ f. refl) h.distinct;
    below = All-update _ _ (count_download n) d.files (λ f e b. b) h.below;
  }

  pub update-Keeps :
      (id key : ℕ) (g : ℕ → File → File)
      → key ≡ id
      → ((n : ℕ) (f : File) → (g n f).user_id ≡ f.user_id)
      → ((n : ℕ) (f : File) → (g n f).id ≡ f.id)
      → Keeps (Apart user fs id) (update_file g key)
  unfolding update_file
  update-Keeps id key g same owners ids =
      subst (λ k. Keeps (Apart user fs id) (update_file g k)) (sym same) (query-Keeps _ _ step)
    where
      step :
          (n : ℕ) (d : Db)
          → Apart user fs id d
          → Apart user fs id (record d { files = update (λ r. r.id == id) (g n) d.files })
      step n d h = record {
        kept = record {
          owned =
              ap (map uncounted) (select-update user id (g n) d.files (owners n) h.foreign)
              ∙ h.kept.owned;
          distinct = Distinct-update id_of _ (g n) d.files (ids n) h.kept.distinct;
          below = All-update _ _ (g n) d.files (λ f e b. rw (ids n f) b) h.kept.below;
        };
        foreign = All-update _ _ (g n) d.files (λ f e b. rw (ids n f, owners n f) b) h.foreign;
      }

  pub create-Keeps : (f : File) → f.user_id ≢ user → Keeps (Kept user fs) (create f)
  unfolding create select
  create-Keeps f other = query-Keeps _ _ step
    where
      step : (n : ℕ) (d : Db) → Kept user fs d → Kept user fs (insert_file f n d).1
      step n d h = record {
        owned = rw (differ _ _ other) h.owned;
        distinct = (All-imp (λ g b e. absurd (omega (arith, b, e))) d.files h.below, h.distinct);
        below = (omega arith, All-imp (λ g b. omega (arith, b)) d.files h.below);
      }

  -- The row with the id of a row that is found is that row.
  found-foreign :
      (p : File → Bool) (rs : List File) (f : File)
      → Distinct id_of rs
      → find? p rs ≡ some f
      → f.user_id ≢ user
      → All (λ g. g.id ≡ f.id → g.user_id ≢ user) rs
  found-foreign p rs f d e other = All-imp same rs (found_by_key id_of rs d)
    where
      same : (g : File) → find? (by_key id_of g.id) rs ≡ some g → g.id ≡ f.id → g.user_id ≢ user
      same g there ids =
          let two : some g ≡ some f =
            sym there ∙ ap (λ k. find? (by_key id_of k) rs) ids ∙ find?-by_key id_of p rs f d e in
          let one : g ≡ f = cc in subst (λ x. x.user_id ≢ user) (sym one) other

  -- What is known of a row that a query found.
  abbrev pub Seen : (File → Bool) → Option File → Db → Type 0
  Seen p none d = Kept user fs d
  Seen p (some f) d = Kept user fs d × (find? p d.files ≡ some f)

  pub Seen-cases :
      (p : File → Bool) (o : Option File) (d : Db)
      → find? p d.files ≡ o
      → Kept user fs d
      → Seen p o d
  Seen-cases p none d e k = k
  Seen-cases p (some f) d e k = (k, e)

  -- A file that somebody else owns, with the id that was asked for.
  abbrev pub Foreign : ℕ → File → Db → Type 0
  Foreign id f d = Apart user fs id d × (f.id ≡ id)

  foreign :
      (id : ℕ) (f : File) (d : Db)
      → Seen (is_live_id id) (some f) d
      → f.user_id ≢ user
      → Foreign id f d
  foreign id f d (k, e) other =
      let rows = All-find? (λ g. g.id < d.next_file) (is_live_id id) d.files f k.below e in
      let same : f.id ≡ id = ground (arith, rows.1) in
      (
        record {
          kept = k;
          foreign =
              subst (λ j. All (λ g. g.id ≡ j → g.user_id ≢ user) d.files) same
                (found-foreign (is_live_id id) d.files f k.distinct e other);
        },
        same,
      )

  checked-Finds :
      (id caller : ℕ) (e e' : Error) (o : Option File)
      → caller ≢ user
      → Finds
          (Seen (is_live_id id) o)
          (Kept user fs)
          (Foreign id)
          (or_raise o e >>= λ f. require (f.user_id == caller) e' >> pure f)
  unfolding ◌>>=◌
  checked-Finds id caller e e' none other = record { at = λ w h. h }
  checked-Finds id caller e e' (some f) other = record {
    at =
        (require-Finds (f.user_id == caller) e' f
          (λ t d h. foreign id f d h (λ z. other (sym ((==_iff _ _).0 t) ∙ z))) (λ d h. h.0)).at;
  }

  find_by_id-Finds :
      (id : ℕ) → Finds (Kept user fs) (Kept user fs) (Seen (is_live_id id)) (find_by_id id)
  unfolding find_by_id
  find_by_id-Finds id = read-Finds _ _ (λ n d k. Seen-cases (is_live_id id) _ d refl k)

  pub find_own-Finds :
      (id caller : ℕ)
      → caller ≢ user
      → Finds (Kept user fs) (Kept user fs) (Foreign id) (find_own id caller)
  unfolding find_own
  find_own-Finds id caller other =
      then-Finds _ _ (find_by_id-Finds id) (λ o. checked-Finds id caller _ _ o other)

  pub find_mine-Finds :
      (id caller : ℕ)
      → caller ≢ user
      → Finds (Kept user fs) (Kept user fs) (Foreign id) (find_mine id caller)
  unfolding find_mine
  find_mine-Finds id caller other =
      then-Finds _ _ (find_by_id-Finds id) (λ o. checked-Finds id caller _ _ o other)

  -- The file that a name finds is the caller's.
  abbrev pub Taken : Option File → Db → Type 0
  Taken none d = Kept user fs d
  Taken (some f) d = Apart user fs f.id d

  pub find_named-Finds :
      (caller : ℕ) (name : Text) (folder : Option ℕ)
      → caller ≢ user
      → Finds (Kept user fs) (Kept user fs) Taken (find_by_filename_and_folder caller name folder)
  unfolding find_by_filename_and_folder
  find_named-Finds caller name folder other =
      read-Finds _ _ (λ n d k. taken d (find? (is_named caller name folder) d.files) refl k)
    where
      taken :
          (d : Db) (o : Option File)
          → find? (is_named caller name folder) d.files ≡ o
          → Kept user fs d
          → Taken o d
      taken d none e k = k
      taken d (some f) e k =
          let p = is_named caller name folder in
          let row = All-find? (λ g. g.id < d.next_file) p d.files f k.below e in
          let his : f.user_id ≡ caller = ground (arith, row.1) in
          record {
            kept = k;
            foreign = found-foreign p d.files f k.distinct e (λ z. other (sym his ∙ z));
          }

  -- What an action on a file of somebody else keeps.
  pub on_file :
      {B : Type 0} (id : ℕ) (m : Service File) (k : File → Service B)
      → Finds (Kept user fs) (Kept user fs) (Foreign id) m
      → ((f : File) → f.id ≡ id → Keeps (Apart user fs id) (k f))
      → Keeps (Kept user fs) (m >>= k)
  on_file id m k found rest =
      bind-Finds m k found λ f. record { at = λ w h. ((rest f h.1).at w h.0).kept }

-- A property of the state that only looks at the files and the next id.
pub record Neutral (P : Db → Type 0) : Type 0 where
  pub at : (d d' : Db) → d.files ≡ d'.files → d.next_file ≡ d'.next_file → P d → P d'

pub Kept-Neutral : (user : ℕ) (fs : List File) → Neutral (Kept user fs)
Kept-Neutral user fs = record {
  at = λ d d' e n k. record {
    owned = subst (λ x. map uncounted (select (is_owned user) x) ≡ fs) e k.owned;
    distinct = subst (Distinct id_of) e k.distinct;
    below =
        subst (λ m. All (λ f. f.id < m) d'.files) n
          (subst (All (λ f. f.id < d.next_file)) e k.below);
  };
}

pub Apart-Neutral : (user : ℕ) (fs : List File) (id : ℕ) → Neutral (Apart user fs id)
Apart-Neutral user fs id = record {
  at = λ d d' e n k. record {
    kept = (Kept-Neutral user fs).at d d' e n k.kept;
    foreign = subst (All (λ f. f.id ≡ id → f.user_id ≢ user)) e k.foreign;
  };
}

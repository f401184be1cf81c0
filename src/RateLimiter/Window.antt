-- ===== src/RateLimiter/Window.antt =====
-- How many requests of a key pass in one window.
use bytevault.Prelude.{
  ℕ, suc, ◌+◌, ◌-◌, ◌≤◌, ◌<◌, min, true, false, none, some, List, [], ◌∷◌, ◌≡◌, ◌⊎◌, All, length,
  arith, if◌then◌else◌, dec_lt,
}
use bytevault.Prelude.Int.{ℤ}
use bytevault.RateLimiter.{Entry, Entries, minute, limit_or_default, allow}

pub limit-pos : (limit : ℤ) → 0 < limit_or_default limit
unfolding limit_or_default
limit-pos limit = ground arith

-- Every answer is in range: the wait is between one second and a minute, what remains is below the
-- limit, and a refused request has nothing left.
pub allow_response :
    (l : Entries) (now key : ℕ) (limit : ℤ)
    → let r = (allow l now key limit).1 in
      (1 ≤ r.retry_after)
      × (r.retry_after ≤ 60)
      × (r.remaining < limit_or_default limit)
      × ((r.allowed ≡ true) ⊎ (r.remaining ≡ 0))
unfolding allow
allow_response l now key limit = ground (arith, limit-pos limit)

-- The requests of one key at the times given, and how many passed.
unfoldable pub passed : Entries → ℕ → ℤ → List ℕ → ℕ
passed l key limit [] = 0
passed l key limit (now ∷ rest) =
    let (l', r) = allow l now key limit in
    let later = passed l' key limit rest in if r.allowed then suc later else later

module _ (l : Entries) (key : ℕ) (limit : ℤ) (e : Entry) (t : ℕ) (h : l key ≡ some e) where
  allow_full :
      t - e.window_start < minute
      → limit_or_default limit ≤ e.count
      → let (l', r) = allow l t key limit in (l' key ≡ some e) × (r.allowed ≡ false)
  unfolding allow
  allow_full inside full = ground arith

  allow_room :
      t - e.window_start < minute
      → e.count < limit_or_default limit
      → let (l', r) = allow l t key limit in
        (l' key ≡ some (record e { count = e.count + 1 })) × (r.allowed ≡ true)
  unfolding allow
  allow_room inside room = ground arith

-- In an open window the requests pass until the limit is reached.
passed_open :
    (l : Entries) (key : ℕ) (limit : ℤ) (e : Entry) (times : List ℕ)
    → l key ≡ some e
    → e.count ≤ limit_or_default limit
    → All (λ t. t - e.window_start < minute) times
    → passed l key limit times ≡ min (limit_or_default limit - e.count) (length times)
unfolding passed
passed_open l key limit e [] h c inside = omega arith
passed_open l key limit e (t ∷ rest) h c inside = elim (dec_lt e.count (limit_or_default limit)) [
  | yes room ↦
      let step = allow_room l key limit e t h inside.0 room in
      let ih =
        passed_open (allow l t key limit).0 key limit (record e { count = e.count + 1 }) rest step.0
          (omega arith) inside.1 in
      rw step.1 (omega (arith, ih))
  | no full ↦
      let step = allow_full l key limit e t h inside.0 (omega arith) in
      let ih = passed_open (allow l t key limit).0 key limit e rest step.0 c inside.1 in
      rw step.1 (omega (arith, ih))
]

allow_opens :
    (l : Entries) (key : ℕ) (limit : ℤ) (t : ℕ)
    → l key ≡ none
    → let (l', r) = allow l t key limit in
      (l' key ≡ some (record { count = 1; window_start = t })) × (r.allowed ≡ true)
unfolding allow
allow_opens l key limit t h = ground arith

-- For a key with no open window: of the requests that come within a minute of the first, exactly the
-- first ones up to the limit pass.
pub passed_window :
    (l : Entries) (key : ℕ) (limit : ℤ) (first : ℕ) (rest : List ℕ)
    → l key ≡ none
    → All (λ t. t - first < minute) rest
    → passed l key limit (first ∷ rest) ≡ min (limit_or_default limit) (suc (length rest))
unfolding passed
passed_window l key limit first rest h inside =
    let step = allow_opens l key limit first h in
    let ih =
      passed_open (allow l first key limit).0 key limit (record { count = 1; window_start = first })
        rest step.0 (limit-pos limit) inside in
    rw step.1 (omega (arith, ih, limit-pos limit))

-- ===== src/RateLimiter/Cleanup.antt =====
-- The periodic cleanup frees memory and changes no answer.
use bytevault.Prelude.{
  ℕ, ◌+◌, ◌≤◌, Option, none, some, List, [], ◌∷◌, ◌≡◌, refl, ◌⊎◌, inl, inr, arith, Bool-cases, ◌==◌,
  ap, ap₂,
}
use bytevault.Prelude.Int.{ℤ}
use bytevault.RateLimiter.{
  Entry, Entries, Response, minute, limit_or_default, allow_entry, allow, cleanup,
}

-- What reaches the limiter: a request of a key with its limit, or the ticker.
pub data Event : Type 0 where
  request : ℕ → ℤ → Event
  tick : Event

-- The answers to the requests among the timed events.
unfoldable pub answers : Entries → List (ℕ × Event) → List Response
answers l [] = []
answers l ((now, request key limit) ∷ rest) =
    let (l', r) = allow l now key limit in r ∷ answers l' rest
answers l ((now, tick) ∷ rest) = answers (cleanup l now) rest

abbrev pub without_ticks : List (ℕ × Event) → List (ℕ × Event)
without_ticks [] = []
without_ticks ((now, request key limit) ∷ rest) = (now, request key limit) ∷ without_ticks rest
without_ticks ((now, tick) ∷ rest) = without_ticks rest

-- Times do not go back.
abbrev pub Ordered : ℕ → List (ℕ × Event) → Type 0
Ordered now [] = Unit
Ordered now ((t, e) ∷ rest) = (now ≤ t) × Ordered t rest

-- At a key, `l` knows what `full` knows, or has forgotten a window that is over.
abbrev Forgot : ℕ → Option Entry → Option Entry → Type 0
Forgot now o full =
    (o ≡ full) ⊎ ((e : Entry) × (o ≡ none) × (full ≡ some e) × (e.window_start + minute ≤ now))

Forgot-later :
    (before now : ℕ) (o full : Option Entry)
    → before ≤ now
    → Forgot before o full
    → Forgot now o full
Forgot-later before now o full le (inl same) = inl same
Forgot-later before now o full le (inr (e, a, b, over)) = inr (e, a, b, omega arith)

-- A window that is over is answered like no window.
allow_entry-Forgot :
    (now limit : ℕ) (o full : Option Entry)
    → Forgot now o full
    → allow_entry o now limit ≡ allow_entry full now limit
unfolding allow_entry
allow_entry-Forgot now limit o full (inl same) = rw same
allow_entry-Forgot now limit o full (inr (e, a, b, over)) = ground arith

allow-Forgot :
    (l full : Entries) (before now key : ℕ) (limit : ℤ)
    → before ≤ now
    → ((k : ℕ) → Forgot before (l k) (full k))
    → ((allow l now key limit).1 ≡ (allow full now key limit).1)
      × ((k : ℕ) → Forgot now ((allow l now key limit).0 k) ((allow full now key limit).0 k))
unfolding allow
allow-Forgot l full before now key limit le h = (ap (λ x. x.1) answer, λ k. agree k)
  where
    answer :
        allow_entry (l key) now (limit_or_default limit)
        ≡ allow_entry (full key) now (limit_or_default limit)
    answer = allow_entry-Forgot now _ _ _ (Forgot-later before now _ _ le (h key))

    agree : (k : ℕ) → Forgot now ((allow l now key limit).0 k) ((allow full now key limit).0 k)
    agree k = elim (Bool-cases (k == key)) [
      | inl e ↦ rw (e, answer) (inl refl)
      | inr e ↦ rw e (Forgot-later before now _ _ le (h k))
    ]

cleanup-Forgot :
    (l full : Entries) (before now k : ℕ)
    → before ≤ now
    → Forgot before (l k) (full k)
    → Forgot now (cleanup l now k) (full k)
unfolding cleanup
cleanup-Forgot l full before now k le h = ground (arith, Forgot-later before now (l k) (full k))

answers-Forgot :
    (l full : Entries) (before : ℕ) (events : List (ℕ × Event))
    → Ordered before events
    → ((k : ℕ) → Forgot before (l k) (full k))
    → answers l events ≡ answers full (without_ticks events)
unfolding answers
answers-Forgot l full before [] o h = refl
answers-Forgot l full before ((now, request key limit) ∷ rest) o h =
    let step = allow-Forgot l full before now key limit o.0 h in
    ap₂ ◌∷◌ step.0
      (answers-Forgot (allow l now key limit).0 (allow full now key limit).0 now rest o.1 step.1)
answers-Forgot l full before ((now, tick) ∷ rest) o h =
    answers-Forgot (cleanup l now) full now rest o.1
      (λ k. cleanup-Forgot l full before now k o.0 (h k))

-- However the cleanup is interleaved with the requests, each request gets the answer that it gets
-- when the cleanup never runs.
pub answers-without_ticks :
    (l : Entries) (before : ℕ) (events : List (ℕ × Event))
    → Ordered before events
    → answers l events ≡ answers l (without_ticks events)
answers-without_ticks l before events o = answers-Forgot l l before events o (λ k. inl refl)

-- ===== src/RateLimiter/Tests.antt =====
-- Examples of requests, at which the theorems apply.
use bytevault.Prelude.{ℕ, ◌≤◌, ◌<◌, ◌*◌, min, true, none, List, [], ◌∷◌, ◌≡◌, ◌⊎◌, refl, arith}
use bytevault.Prelude.Int.{pos, negsuc}
use bytevault.RateLimiter.{Entries, minute, second, limit_or_default, allow}
use bytevault.RateLimiter.Window.{allow_response, passed, passed_window}
use bytevault.RateLimiter.Cleanup.{
  Event, request, tick, answers, without_ticks, answers-without_ticks,
}

abbrev no_entries : Entries
no_entries k = none

-- Three requests within a minute, of a key that may make two.
passed_window_example :
    passed no_entries 5 (pos 2) (0 ∷ second ∷ 59 * second ∷ []) ≡ min (limit_or_default (pos 2)) 3
passed_window_example =
    passed_window no_entries 5 (pos 2) 0 (second ∷ 59 * second ∷ []) refl
      (omega arith, (omega arith, tt))

abbrev traffic : List (ℕ × Event)
traffic =
    (0, request 5 (pos 1))
    ∷ (second, request 5 (pos 1))
    ∷ (3 * minute, tick)
    ∷ (3 * minute, request 5 (pos 1))
    ∷ []

answers-without_ticks_example :
    answers no_entries traffic ≡ answers no_entries (without_ticks traffic)
answers-without_ticks_example =
    answers-without_ticks no_entries 0 traffic
      (omega arith, (omega arith, (omega arith, (omega arith, tt))))

allow_response_example :
    let r = (allow no_entries second 5 (negsuc 3)).1 in
    (1 ≤ r.retry_after)
    × (r.retry_after ≤ 60)
    × (r.remaining < limit_or_default (negsuc 3))
    × ((r.allowed ≡ true) ⊎ (r.remaining ≡ 0))
allow_response_example = allow_response no_entries second 5 (negsuc 3)

-- The third request in a window is refused.
third_refused : passed no_entries 5 (pos 2) (0 ∷ second ∷ 59 * second ∷ []) ≡ 2
unfolding passed allow limit_or_default
third_refused = refl

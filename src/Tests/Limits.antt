-- ===== src/Tests/Limits.antt =====
-- The law of the rate limiter, at a client that comes back in its window.
use ckb_dex.Access.Limits.{admitted_within_limits, running}
use ckb_dex.Prelude.{refl, List, ◌∷◌, [], ◌≡◌, some, ◌+◌, length, ◌≤◌, arith}
use ckb_dex.Access.{count_request, RateLimitOptions, rate_limiter, Window, find_window}

abbrev options : RateLimitOptions
options = record { window_ms = 1000; max_requests = 5; max_clients = 2 }

abbrev windows : List Window
windows = record { client = "a"; start = 10; count = 1 } ∷ []

admitted_within_limits_example :
    ((w : Window) × (find_window "a" (rate_limiter options "a" 20 windows).1 ≡ some w)
      × (w.start ≡ 10)
      × (w.count ≡ 1 + 1)
      × (w.count + 3 ≡ 5))
    × (length (rate_limiter options "a" 20 windows).1 ≤ 2)
unfolding running rate_limiter find_window count_request
admitted_within_limits_example = admitted_within_limits options "a" 20 windows 3 (omega arith) refl

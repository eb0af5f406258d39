-- ===== src/Access/Limits.antt =====
-- The bounds that the rate limiter of backend/src/middleware/index.ts keeps.
use ckb_dex.Prelude.{
  if◌then◌else◌, none, suc, ℕ, List, String, length, ◌≡◌, leb, ◌≤◌, some, false, ◌∷◌, ◌+◌, arith,
  [], Bool-cases, eq_refl, Option-cases, inl, ◌==◌, inr, refl, ap,
}
use ckb_dex.Access.{
  RateLimitOptions, Window, admitted, find_window, put_window, count_request, sweep, open_window,
  rate_limiter, is_over,
}

length-put_window : (w : Window) (ws : List Window) → length (put_window w ws) ≤ length ws + 1
unfolding put_window
length-put_window w [] = omega arith
length-put_window w (v ∷ vs) = ground (arith, length-put_window w vs)

length-put_window_known :
    (w v : Window) (ws : List Window)
    → find_window w.client ws ≡ some v
    → length (put_window w ws) ≡ length ws
unfolding put_window find_window
length-put_window_known w v [] h = cc
length-put_window_known w v (x ∷ xs) h = elim (Bool-cases (x.client == w.client)) [
  | inl same ↦ rw same refl
  | inr other ↦ rw other (ap suc (length-put_window_known w v xs (ground arith)))
]

find-put_window : (w : Window) (ws : List Window) → find_window w.client (put_window w ws) ≡ some w
unfolding put_window find_window
find-put_window w [] = ground (arith, eq_refl w.client)
find-put_window w (v ∷ vs) = elim (Bool-cases (v.client == w.client)) [
  | inl same ↦ rw (same, eq_refl w.client) refl
  | inr other ↦ rw (other, other) (find-put_window w vs)
]

-- When the running window of a client began and what it has counted, where a client without one
-- starts now at 0.
unfoldable pub running : RateLimitOptions → String → ℕ → List Window → ℕ × ℕ
running o key now ws = elim (find_window key ws) [
  | none ↦ (now, 0)
  | some w ↦ if is_over o key now w then (now, 0) else (w.start, w.count)
]

module _ (o : RateLimitOptions) (key : String) (now : ℕ) where
  -- The count of an admitted request, where the map then has it.
  count_admitted :
      (start count : ℕ) (ws : List Window) (remaining : ℕ)
      → (count_request o key now start count ws).0 ≡ admitted remaining
      → (w : Window) × (find_window key (count_request o key now start count ws).1 ≡ some w)
        × (w.start ≡ start)
        × (w.count ≡ count + 1)
        × (w.count + remaining ≡ o.max_requests)
  unfolding count_request
  count_admitted start count ws remaining h =
      let w : Window = record { client = key; start = start; count = count + 1 } in
      (w, find-put_window w ws, refl, refl, ground arith)

  count_fits :
      (vs : List Window)
      → leb o.max_clients (length vs) ≡ false
      → length (count_request o key now now 0 vs).1 ≤ o.max_clients
  unfolding count_request
  count_fits vs room =
      ground (arith, length-put_window (record { client = key; start = now; count = 0 + 1 }) vs)

  open_admitted :
      (ws : List Window) (remaining : ℕ)
      → (open_window o key now ws).0 ≡ admitted remaining
      → ((w : Window) × (find_window key (open_window o key now ws).1 ≡ some w)
          × (w.start ≡ now)
          × (w.count ≡ 0 + 1)
          × (w.count + remaining ≡ o.max_requests))
        × (length (open_window o key now ws).1 ≤ o.max_clients)
  unfolding open_window
  open_admitted ws remaining h =
      elim (Bool-cases (leb o.max_clients (length (sweep o key now ws)))) [
        | inl full ↦ cc (rw (full) at h)
        | inr room ↦ rw room (
          count_admitted now 0 (sweep o key now ws) remaining (rw room at h),
          count_fits (sweep o key now ws) room,
        )
      ]

-- A request that the limiter admits is counted: the map then has a window of its client that counts
-- one request more than the running window did, which began when that one began, or counts one and
-- begins now where none is running. The requests counted and those that remain make up the maximum,
-- and the clients that are tracked stay within their bound, if they were.
pub admitted_within_limits :
    (o : RateLimitOptions) (key : String) (now : ℕ) (ws : List Window) (remaining : ℕ)
    → length ws ≤ o.max_clients
    → (rate_limiter o key now ws).0 ≡ admitted remaining
    → ((w : Window) × (find_window key (rate_limiter o key now ws).1 ≡ some w)
        × (w.start ≡ (running o key now ws).0)
        × (w.count ≡ (running o key now ws).1 + 1)
        × (w.count + remaining ≡ o.max_requests))
      × (length (rate_limiter o key now ws).1 ≤ o.max_clients)
unfolding rate_limiter count_request running
admitted_within_limits o key now ws remaining bound h = elim (Option-cases (find_window key ws)) [
  | inl unknown ↦
      rw (unknown, rate_limiter, running)
        (open_admitted o key now ws remaining (rw (unknown, rate_limiter, running) at h))
  | inr (w, known) ↦ elim (Bool-cases (is_over o key now w)) [
    | inl over ↦
        rw (known, rate_limiter, running, over)
          (open_admitted o key now ws remaining (rw (known, rate_limiter, over) at h))
    | inr live ↦
        let counted : Window = record { client = key; start = w.start; count = w.count + 1 } in
        rw (known, rate_limiter, running, live)
          (
            count_admitted o key now w.start w.count ws remaining
                (rw (known, rate_limiter, live) at h),
            rw (count_request, length-put_window_known counted w ws known) bound,
          )
  ]
]

-- ===== src/Faucet/Throttle/Laws.antt =====
-- What `throttleByIp` of faucet/src/routes/index.ts lets pass.
use ckb_dex.Prelude.{
  ℕ, String, List, ◌≡◌, length, some, ◌≤◌, arith, ◌+◌, true, ◌∷◌, eq_refl, [], Bool-cases, ◌==◌,
}
use ckb_dex.Faucet.Throttle.{
  Seen, last_request_at, record_request, prune_throttle, throttle_by_ip,
  min_ms_between_requests_per_ip, max_tracked_ips,
}

last-record_request :
    (ip : String) (now : ℕ) (seen : List Seen)
    → last_request_at ip (record_request ip now seen) ≡ some now
unfolding last_request_at record_request
last-record_request ip now [] = ground (arith, eq_refl ip)
last-record_request ip now (s ∷ rest) =
    ground (arith, eq_refl ip, last-record_request ip now rest, Bool-cases (s.ip == ip))

length-record_request :
    (ip : String) (now : ℕ) (seen : List Seen)
    → length (record_request ip now seen) ≤ length seen + 1
unfolding record_request
length-record_request ip now [] = omega arith
length-record_request ip now (s ∷ rest) = ground (arith, length-record_request ip now rest)

-- A request that passes the throttle comes at least five seconds after the last one that passed
-- from the same address, is remembered at its own time, and leaves no more than the tracked
-- number of addresses.
pub throttle_spaces_requests :
    (ip : String) (now last : ℕ) (seen : List Seen)
    → last_request_at ip seen ≡ some last
    → (throttle_by_ip ip now seen).0 ≡ true
    → (last + min_ms_between_requests_per_ip ≤ now)
      × (last_request_at ip (throttle_by_ip ip now seen).1 ≡ some now)
      × (length (throttle_by_ip ip now seen).1 ≤ max_tracked_ips)
unfolding throttle_by_ip
throttle_spaces_requests ip now last seen h pass =
    let pruned = prune_throttle now seen in
    ground (arith, last-record_request ip now pruned, length-record_request ip now pruned)

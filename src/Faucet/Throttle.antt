-- ===== src/Faucet/Throttle.antt =====
-- The in-memory throttle of faucet/src/routes/index.ts: the last request of each address, in the
-- order the map was filled.
pub mod Laws
use ckb_dex.Prelude.{
  ℕ, String, List, Bool, Option, ◌∷◌, ltb, if◌then◌else◌, none, ◌==◌, ◌-◌, length, leb, [], some,
  filter, false, true,
}

pub record Seen : Type 0 where
  pub ip : String
  pub at : ℕ

abbrev pub min_ms_between_requests_per_ip : ℕ
min_ms_between_requests_per_ip = 5000

abbrev pub max_tracked_ips : ℕ
max_tracked_ips = 10000

-- `Map.get`
unfoldable pub last_request_at : String → List Seen → Option ℕ
last_request_at ip [] = none
last_request_at ip (s ∷ rest) =
    let later = last_request_at ip rest in if s.ip == ip then some s.at else later

-- `Map.set`: an address keeps its place.
unfoldable pub record_request : String → ℕ → List Seen → List Seen
record_request ip now [] = record { ip = ip; at = now } ∷ []
record_request ip now (s ∷ rest) =
    let later = record_request ip now rest in
    if s.ip == ip then record { ip = ip; at = now } ∷ rest else s ∷ later

abbrev pub is_recent : ℕ → Seen → Bool
is_recent now s = ltb (now - s.at) min_ms_between_requests_per_ip

unfoldable pub prune_throttle : ℕ → List Seen → List Seen
prune_throttle now seen =
    if ltb (length seen) max_tracked_ips then seen else filter (is_recent now) seen

-- Whether the request goes on, and the map after it. A clock that goes back reads as no time.
unfoldable pub throttle_by_ip : String → ℕ → List Seen → Bool × List Seen
throttle_by_ip ip now seen =
    let pruned = prune_throttle now seen in
    let admitted =
      if leb max_tracked_ips (length pruned)
      then (false, pruned)
      else (true, record_request ip now pruned) in
    elim (last_request_at ip seen) [
      | none ↦ admitted
      | some last ↦
          if ltb (now - last) min_ms_between_requests_per_ip then (false, pruned) else admitted
    ]

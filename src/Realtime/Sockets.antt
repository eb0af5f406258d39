-- ===== src/Realtime/Sockets.antt =====
-- The sockets of backend/src/services/realtime.ts: lemmas on the list of connections.
use ckb_dex.Prelude.{
  ℕ, suc, String, true, false, List, [], ◌∷◌, ◌++◌, ◌≡◌, ◌≤◌, any, filter, length, map, eqb, not,
  ◌==◌, arith, refl, All, Bool-cases, inl, inr, ◌+◌, ap, if◌then◌else◌, eqb→eq,
}
use ckb_dex.Realtime.{Broadcaster, Connection, RealtimeLimits, own, is_socket}
use ckb_dex.Realtime.Steps.{is_connected}
use mathlib.Core.Path.{subst}

abbrev pub sockets_of : Broadcaster → List ℕ
sockets_of b = map (λ c. c.socket) b.channels_by_socket

-- The sockets of an address.
abbrev pub open_at : (ℕ → String) → String → List ℕ → ℕ
open_at ip_of ip [] = 0
open_at ip_of ip (s ∷ ss) = if ip_of s == ip then open_at ip_of ip ss + 1 else open_at ip_of ip ss

abbrev pub UniqueSockets : List ℕ → Type 0
UniqueSockets [] = Unit
UniqueSockets (s ∷ ss) = All (λ t. eqb t s ≡ false) ss × UniqueSockets ss

-- The bounds, and that the counter of each address is the number of its open sockets.
pub record IsBounded (limits : RealtimeLimits) (ip_of : ℕ → String) (b : Broadcaster) : Type 0 where
  pub within : length (sockets_of b) ≤ limits.max_connections
  pub counted : (ip : String) → b.connections_by_ip ip ≡ open_at ip_of ip (sockets_of b)
  pub within_ip : (ip : String) → open_at ip_of ip (sockets_of b) ≤ limits.max_connections_per_ip
  pub unique : UniqueSockets (sockets_of b)

-- What does not touch the sockets or the counters.
abbrev pub Untouched : Broadcaster → Broadcaster → Type 0
Untouched b b' = (sockets_of b' ≡ sockets_of b) × (b'.connections_by_ip ≡ b.connections_by_ip)

pub length-append : (ss : List ℕ) (s : ℕ) → length (ss ++ s ∷ []) ≡ length ss + 1
length-append [] s = refl
length-append (t ∷ ts) s = ground (arith, length-append ts s)

pub map-append :
    (cs : List Connection) (c : Connection)
    → map (λ c. c.socket) (cs ++ c ∷ []) ≡ map (λ c. c.socket) cs ++ c.socket ∷ []
map-append [] c = refl
map-append (d ∷ ds) c = ap (λ l. d.socket ∷ l) (map-append ds c)

pub length-map : (cs : List Connection) → length (map (λ c. c.socket) cs) ≡ length cs
length-map [] = refl
length-map (c ∷ cs) = ap suc (length-map cs)

pub sockets-own :
    (s : ℕ) (channel : String) (cs : List Connection)
    → map (λ c. c.socket) (own s channel cs) ≡ map (λ c. c.socket) cs
unfolding own
sockets-own s channel [] = refl
sockets-own s channel (c ∷ cs) = ground (arith, sockets-own s channel cs)

pub sockets-filter :
    (s : ℕ) (cs : List Connection)
    → map (λ c. c.socket) (filter (λ c. not (is_socket s c)) cs)
      ≡ filter (λ t. not (eqb t s)) (map (λ c. c.socket) cs)
sockets-filter s [] = refl
sockets-filter s (c ∷ cs) = ground (arith, sockets-filter s cs)

pub connected-sockets :
    (s : ℕ) (cs : List Connection) → is_connected s cs ≡ any (λ t. eqb t s) (map (λ c. c.socket) cs)
connected-sockets s [] = refl
connected-sockets s (c ∷ cs) = ground (arith, connected-sockets s cs)

filter_other :
    (s : ℕ) (ss : List ℕ) → All (λ t. eqb t s ≡ false) ss → filter (λ t. not (eqb t s)) ss ≡ ss
filter_other s [] h = refl
filter_other s (t ∷ ts) h = ground (arith, h.0, filter_other s ts h.1)

pub length-filter_out : (s : ℕ) (ss : List ℕ) → length (filter (λ t. not (eqb t s)) ss) ≤ length ss
length-filter_out s [] = omega arith
length-filter_out s (t ∷ ts) = ground (arith, length-filter_out s ts)

All-filter_out :
    (P : ℕ → Type 0) (s : ℕ) (ss : List ℕ) → All P ss → All P (filter (λ t. not (eqb t s)) ss)
All-filter_out P s [] h = tt
All-filter_out P s (t ∷ ts) h = elim (Bool-cases (eqb t s)) [
  | inl same ↦ rw same (All-filter_out P s ts h.1)
  | inr other ↦ rw other (h.0, All-filter_out P s ts h.1)
]

pub filter-UniqueSockets :
    (s : ℕ) (ss : List ℕ) → UniqueSockets ss → UniqueSockets (filter (λ t. not (eqb t s)) ss)
filter-UniqueSockets s [] u = tt
filter-UniqueSockets s (t ∷ ts) u = elim (Bool-cases (eqb t s)) [
  | inl same ↦ rw same (filter-UniqueSockets s ts u.1)
  | inr other ↦
      rw other (All-filter_out (λ x. eqb x t ≡ false) s ts u.0, filter-UniqueSockets s ts u.1)
]

module _ (ip_of : ℕ → String) where
  pub open_at-append :
      (ip : String) (ss : List ℕ) (s : ℕ)
      → open_at ip_of ip (ss ++ s ∷ []) ≡ open_at ip_of ip ss + (if ip_of s == ip then 1 else 0)
  open_at-append ip [] s = ground arith
  open_at-append ip (t ∷ ts) s = ground (arith, open_at-append ip ts s)

  -- A socket that leaves is counted once less, at its address alone.
  pub open_at-filter :
      (ip : String) (s : ℕ) (ss : List ℕ)
      → UniqueSockets ss
      → any (λ t. eqb t s) ss ≡ true
      → open_at ip_of ip (filter (λ t. not (eqb t s)) ss) + (if ip_of s == ip then 1 else 0)
        ≡ open_at ip_of ip ss
  open_at-filter ip s [] u h = cc
  open_at-filter ip s (t ∷ ts) u h = elim (Bool-cases (eqb t s)) [
    | inl same ↦
        let e : t ≡ s = eqb→eq t s same in
        let rest = filter_other s ts (subst (λ x. All (λ y. eqb y x ≡ false) ts) e u.0) in
        let here = ap (open_at ip_of ip) rest in
        let ips = ap ip_of e in rw same (ground (arith, here, ips))
    | inr other ↦ rw other (ground (arith, open_at-filter ip s ts u.1))
  ]

All-append_other :
    (ts : List ℕ) (s t : ℕ)
    → All (λ x. eqb x t ≡ false) ts
    → eqb s t ≡ false
    → All (λ x. eqb x t ≡ false) (ts ++ s ∷ [])
All-append_other [] s t h k = (k, tt)
All-append_other (x ∷ xs) s t h k = (h.0, All-append_other xs s t h.1 k)

pub UniqueSockets-append :
    (ss : List ℕ) (s : ℕ)
    → UniqueSockets ss
    → any (λ t. eqb t s) ss ≡ false
    → UniqueSockets (ss ++ s ∷ [])
UniqueSockets-append [] s u h = (tt, tt)
UniqueSockets-append (t ∷ ts) s u h =
    (All-append_other ts s t u.0 (ground arith), UniqueSockets-append ts s u.1 (ground arith))

-- ===== src/Realtime/Bounds.antt =====
-- The bounds on the connections of backend/src/services/realtime.ts hold in every interleaving.
use ckb_dex.Prelude.{
  sym, ◌∙◌, ◌||◌, ◌++◌, leb, ◌<◌, length, ℕ, String, Bool, true, false, List, [], ◌∷◌, ◌≡◌, arith,
  refl, Bool-cases, inl, inr, Option-cases, eq_iff, length, ◌<◌, ◌+◌, ◌++◌,
}
use ckb_dex.Realtime.{
  emit_finishes, Connection, Broadcaster, RealtimeLimits, connect, release, receive, resume, leave,
  set_count, subscribe_next, next_sequence, subscribe, owned_by, Handler,
}
use ckb_dex.Realtime.Steps.{Step, Run, is_connected}
use ckb_dex.Realtime.Sockets.{
  open_at-append, open_at-filter, length-append, map-append, length-map, connected-sockets,
  sockets-own, sockets-filter, length-filter_out, filter-UniqueSockets, UniqueSockets-append,
  sockets_of, IsBounded, Untouched, map-append, length-append, length-map,
}
use ckb_dex.Projection.Spend.{distinct}

module _ (limits : RealtimeLimits) (ip_of : ℕ → String) where
  Untouched-IsBounded :
      (b b' : Broadcaster) → Untouched b b' → IsBounded limits ip_of b → IsBounded limits ip_of b'
  Untouched-IsBounded b b' u i = record {
    within = rw u.0 i.within;
    counted = λ ip. rw (u.0, u.1) (i.counted ip);
    within_ip = λ ip. rw u.0 (i.within_ip ip);
    unique = rw u.0 i.unique;
  }

  kept-IsBounded :
      (s : ℕ) (b : Broadcaster)
      → is_connected s b.channels_by_socket ≡ false
      → IsBounded limits ip_of b
      → length b.channels_by_socket < limits.max_connections
      → b.connections_by_ip (ip_of s) < limits.max_connections_per_ip
      → IsBounded limits ip_of (record b {
        connections_by_ip =
            set_count (ip_of s) (b.connections_by_ip (ip_of s) + 1) b.connections_by_ip;
        channels_by_socket = b.channels_by_socket ++ record { socket = s; channels = [] } ∷ [];
      })
  kept-IsBounded s b fresh i room room_ip =
      let new : Connection = record { socket = s; channels = [] } in
      let e = map-append b.channels_by_socket new in
      record {
        within = ground (arith, e, length-append (sockets_of b) s, length-map b.channels_by_socket);
        counted = λ ip. ground (
          arith,
          e,
          open_at-append ip_of ip (sockets_of b) s,
          i.counted ip,
          i.counted (ip_of s),
          eq_iff (ip_of s) ip,
        );
        within_ip = λ ip. ground (
          arith,
          e,
          open_at-append ip_of ip (sockets_of b) s,
          i.counted ip,
          i.within_ip ip,
          eq_iff (ip_of s) ip,
        );
        unique = rw e (
            UniqueSockets-append (sockets_of b) s i.unique
              (sym (connected-sockets s b.channels_by_socket) ∙ fresh));
      }

  connect-IsBounded :
      (s : ℕ) (b : Broadcaster)
      → is_connected s b.channels_by_socket ≡ false
      → IsBounded limits ip_of b
      → IsBounded limits ip_of (connect limits s (ip_of s) b).1
  unfolding connect
  connect-IsBounded s b fresh i =
      elim (Bool-cases (
        leb limits.max_connections (length b.channels_by_socket)
        || leb limits.max_connections_per_ip (b.connections_by_ip (ip_of s)))) [
          | inl full ↦ rw (full, connect) i
          | inr room ↦ rw (room, connect) (kept-IsBounded s b fresh i (ground arith) (ground arith))
        ]

  subscribe-Untouched :
      (s : ℕ) (channels : List String) (b : Broadcaster) → Untouched b (subscribe_next s channels b)
  unfolding subscribe_next subscribe
  subscribe-Untouched s [] b = (refl, refl)
  subscribe-Untouched s (channel ∷ rest) b = (sockets-own s channel b.channels_by_socket, refl)

  receive-Untouched :
      (is_valid : String → Bool) (s : ℕ) (channels : List String) (b : Broadcaster)
      → Untouched b (receive limits is_valid s channels b).1
  unfolding receive
  receive-Untouched is_valid s channels b =
      let next = subscribe-Untouched s (distinct channels) b in
      elim (Option-cases (owned_by s b.channels_by_socket)) [
        | inl e ↦ ground (arith, e)
        | inr (owned, e) ↦ ground (arith, e, next.0, next.1)
      ]

  resume-Untouched :
      (h : Handler) (others : List Handler) (b : Broadcaster) → Untouched b (resume h others b)
  unfolding resume next_sequence
  resume-Untouched h others b = subscribe-Untouched h.client h.rest _

  emit-Untouched :
      (is_open : ℕ → Bool) (buffered : ℕ → ℕ) (channel : String) (subscribers : List ℕ)
      (b : Broadcaster)
      → Untouched b (emit_finishes limits is_open buffered channel subscribers b).1
  unfolding emit_finishes next_sequence
  emit-Untouched is_open buffered channel subscribers b = (refl, refl)

  leave-Untouched :
      (s : ℕ) (channels : List String) (b : Broadcaster) → Untouched b (leave s channels b)
  unfolding leave
  leave-Untouched s [] b = (refl, refl)
  leave-Untouched s (channel ∷ channels) b = leave-Untouched s channels _

  release-IsBounded :
      (s : ℕ) (b : Broadcaster)
      → is_connected s b.channels_by_socket ≡ true
      → IsBounded limits ip_of b
      → IsBounded limits ip_of (release s (ip_of s) b)
  unfolding release
  release-IsBounded s b there i =
      let e = sockets-filter s b.channels_by_socket in
      let open_s = sym (connected-sockets s b.channels_by_socket) ∙ there in
      record {
        within = ground (arith, e, length-filter_out s (sockets_of b), i.within);
        counted = λ ip. ground (
          arith,
          e,
          open_at-filter ip_of ip s (sockets_of b) i.unique open_s,
          i.counted ip,
          i.counted (ip_of s),
          eq_iff (ip_of s) ip,
        );
        within_ip = λ ip.
            ground
              (arith, e, open_at-filter ip_of ip s (sockets_of b) i.unique open_s, i.within_ip ip);
        unique = rw e (filter-UniqueSockets s (sockets_of b) i.unique);
      }

  module _ (is_valid : String → Bool) where
    Step-IsBounded :
        (b c : Broadcaster)
        → Step limits is_valid ip_of b c
        → IsBounded limits ip_of b
        → IsBounded limits ip_of c
    Step-IsBounded b _ (Step.connects s _ fresh) i = connect-IsBounded s b fresh i
    Step-IsBounded b _ (Step.receives s channels _) i =
        Untouched-IsBounded b _ (receive-Untouched is_valid s channels b) i
    Step-IsBounded b _ (Step.resumes h before after _ e) i =
        Untouched-IsBounded b _ (resume-Untouched h (before ++ after) b) i
    Step-IsBounded b _ (Step.fails h before after _ e) i = Untouched-IsBounded b _ (refl, refl) i
    Step-IsBounded b _ (Step.emits is_open buffered channel subscribers _) i =
        Untouched-IsBounded b _ (emit-Untouched is_open buffered channel subscribers b) i
    Step-IsBounded b _ (Step.closes s _ there) i = release-IsBounded s b there i

-- In every interleaving of the broadcaster's handlers, the connections stay within their limits, in
-- total and for each address, and the counter of an address is the number of its open sockets, if
-- they were at the start; a new socket has a number that is not in use, and an open socket closes.
pub run-IsBounded :
    (limits : RealtimeLimits) (is_valid : String → Bool) (ip_of : ℕ → String) (b c : Broadcaster)
    → Run limits is_valid ip_of b c
    → IsBounded limits ip_of b
    → IsBounded limits ip_of c
run-IsBounded limits is_valid ip_of b c (Run.done _) i = i
run-IsBounded limits is_valid ip_of b d (Run.then_step _ c _ r s) i =
    Step-IsBounded limits ip_of is_valid c d s (run-IsBounded limits is_valid ip_of b c r i)

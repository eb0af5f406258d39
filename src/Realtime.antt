-- ===== src/Realtime.antt =====
-- backend/src/services/realtime.ts, `RealtimeBroadcaster`: the connections, the subscriptions and
-- the handlers of messages, which wait for a snapshot of each channel. Sockets are numbers that are
-- never used again, a Map is a list of its entries in order or, with a default, a function, and a
-- Set is a list. The snapshots themselves, pings and the server are left out.
pub mod Steps
pub mod Sockets
pub mod Bounds
pub mod Leak
use ckb_dex.Prelude.{
  ℕ, zero, suc, String, Bool, true, false, List, [], ◌∷◌, Option, some, none, if◌then◌else◌, filter,
  any, map, length, member, not, ◌==◌, ◌||◌, ◌+◌, ◌-◌, eqb, ltb, leb, ◌++◌, update_where, ◌&&◌,
}
use ckb_dex.Projection.Spend.{distinct}

pub record RealtimeLimits : Type 0 where
  pub max_connections : ℕ
  pub max_connections_per_ip : ℕ
  pub max_channels_per_message : ℕ
  pub max_channels_per_socket : ℕ
  pub max_buffered_bytes : ℕ

-- DEFAULT_REALTIME_LIMITS
abbrev pub default_realtime_limits : RealtimeLimits
default_realtime_limits = record {
  max_connections = 1000;
  max_connections_per_ip = 20;
  max_channels_per_message = 8;
  max_channels_per_socket = 16;
  max_buffered_bytes = 1048576;
}

-- The channels of one socket, and the sockets of one channel.
pub record Connection : Type 0 where
  pub socket : ℕ
  pub channels : List String

pub record Subscribers : Type 0 where
  pub channel : String
  pub sockets : List ℕ

-- A loop of a message handler that waits for the snapshot of `waiting`.
pub record Handler : Type 0 where
  pub client : ℕ
  pub waiting : String
  pub rest : List String

pub record Broadcaster : Type 0 where
  pub sequence_by_channel : String → ℕ
  pub subscriptions : List Subscribers
  pub channels_by_socket : List Connection
  pub connections_by_ip : String → ℕ
  pub handlers : List Handler

abbrev pub is_socket : ℕ → Connection → Bool
is_socket s c = eqb c.socket s

abbrev pub set_count : String → ℕ → (String → ℕ) → String → ℕ
set_count key n counts k = if key == k then n else counts k

-- `channelsBySocket.get(socket)`
unfoldable pub owned_by : ℕ → List Connection → Option (List String)
owned_by s [] = none
owned_by s (c ∷ cs) = if is_socket s c then some c.channels else owned_by s cs

-- The handler of "connection"; the answer is whether the socket is kept.
unfoldable pub connect : RealtimeLimits → ℕ → String → Broadcaster → Bool × Broadcaster
connect limits s ip b =
    let per_ip = b.connections_by_ip ip in
    if leb limits.max_connections (length b.channels_by_socket)
      || leb limits.max_connections_per_ip per_ip
    then (false, b)
    else (
      true,
      record b {
        connections_by_ip = set_count ip (per_ip + 1) b.connections_by_ip;
        channels_by_socket = b.channels_by_socket ++ record { socket = s; channels = [] } ∷ [];
      },
    )

abbrev add_text : String → List String → List String
add_text t ts = if member t ts then ts else ts ++ t ∷ []

abbrev holds_socket : ℕ → List ℕ → Bool
holds_socket s ss = any (λ x. eqb x s) ss

abbrev add_socket : ℕ → List ℕ → List ℕ
add_socket s ss = if holds_socket s ss then ss else ss ++ s ∷ []

-- `owned.add(channel)`: the set of a socket that has closed is not in the map any more.
unfoldable pub own : ℕ → String → List Connection → List Connection
own s channel cs =
    update_where (is_socket s) (λ c. record c { channels = add_text channel c.channels }) cs

unfoldable pub add_subscriber : ℕ → String → List Subscribers → List Subscribers
add_subscriber s channel [] = record { channel = channel; sockets = s ∷ [] } ∷ []
add_subscriber s channel (e ∷ es) =
    let later = add_subscriber s channel es in
    if e.channel == channel then record e { sockets = add_socket s e.sockets } ∷ es else e ∷ later

-- The body of the loop up to the `await`.
unfoldable pub subscribe : ℕ → String → List String → Broadcaster → Broadcaster
subscribe s channel rest b = record b {
  channels_by_socket = own s channel b.channels_by_socket;
  subscriptions = add_subscriber s channel b.subscriptions;
  handlers = record { client = s; waiting = channel; rest = rest } ∷ b.handlers;
}

unfoldable pub subscribe_next : ℕ → List String → Broadcaster → Broadcaster
subscribe_next s [] b = b
subscribe_next s (channel ∷ rest) b = subscribe s channel rest b

-- What a client is answered at once.
pub data Answer : Type 0 where
  refused : String → Answer
  nothing : Answer

-- The handler of a message whose channels have been read; `is_valid` is `isValidChannel`.
unfoldable pub receive :
    RealtimeLimits → (String → Bool) → ℕ → List String → Broadcaster → Answer × Broadcaster
receive limits is_valid s channels b =
    if eqb (length channels) 0
    then (refused "Expected channels array", b)
    else if ltb limits.max_channels_per_message (length channels)
    then (refused "Too many channels per message", b)
    else if any (λ channel. not (is_valid channel)) channels
    then (refused "Invalid channel name", b)
    else elim (owned_by s b.channels_by_socket) [
      | none ↦ (nothing, b)
      | some owned ↦
          if ltb limits.max_channels_per_socket (
            length owned
            + length (distinct (filter (λ channel. not (member channel owned)) channels)))
          then (refused "Too many channels per connection", b)
          else (nothing, subscribe_next s (distinct channels) b)
    ]

-- `nextSequence`
unfoldable pub next_sequence : String → Broadcaster → ℕ × Broadcaster
next_sequence channel b =
    let next = b.sequence_by_channel channel + 1 in
    (next, record b { sequence_by_channel = set_count channel next b.sequence_by_channel })

-- The handler at a place goes on: its snapshot is sent with the next number, and the next channel
-- is subscribed to.
unfoldable pub resume : Handler → List Handler → Broadcaster → Broadcaster
resume h others b =
    subscribe_next h.client h.rest (next_sequence h.waiting (record b { handlers = others })).1

abbrev drop_socket : ℕ → List ℕ → List ℕ
drop_socket s ss = filter (λ x. not (eqb x s)) ss

-- One turn of the loop of `release`: the socket leaves a channel, which goes when it is empty.
unfoldable pub unsubscribe : ℕ → String → List Subscribers → List Subscribers
unsubscribe s channel [] = []
unsubscribe s channel (e ∷ es) =
    let later = unsubscribe s channel es in
    if e.channel == channel
    then if eqb (length (drop_socket s e.sockets)) 0
      then es
      else record e { sockets = drop_socket s e.sockets } ∷ es
    else e ∷ later

abbrev has_channel : String → List Subscribers → Bool
has_channel channel es = any (λ e. e.channel == channel) es

unfoldable pub leave : ℕ → List String → Broadcaster → Broadcaster
leave s [] b = b
leave s (channel ∷ channels) b =
    let left = unsubscribe s channel b.subscriptions in
    leave s channels (record b {
      subscriptions = left;
      sequence_by_channel =
          if has_channel channel b.subscriptions
          then if has_channel channel left
            then b.sequence_by_channel
            else set_count channel 0 b.sequence_by_channel
          else b.sequence_by_channel;
    })

-- `release`; the count of an address that has none is 0.
unfoldable pub release : ℕ → String → Broadcaster → Broadcaster
release s ip b =
    let owned : List String = elim (owned_by s b.channels_by_socket) [
      | none ↦ []
      | some channels ↦ channels
    ] in
    let after = leave s owned b in
    record after {
      channels_by_socket = filter (λ c. not (is_socket s c)) b.channels_by_socket;
      connections_by_ip = set_count ip (b.connections_by_ip ip - 1) b.connections_by_ip;
    }

-- `sendToSocket`: what happens to a message, for an open socket with `buffered` unsent bytes.
pub data Delivery : Type 0 where
  skipped terminated sent : Delivery

unfoldable pub send_to_socket : RealtimeLimits → Bool → ℕ → Delivery
send_to_socket limits is_open buffered =
    if not is_open
    then skipped
    else if ltb limits.max_buffered_bytes buffered
    then terminated
    else sent

-- `emit` up to the `await`: whether a snapshot is queried.
unfoldable pub emit_starts : String → Broadcaster → Bool
emit_starts channel b =
    any (λ e. (e.channel == channel) && not (eqb (length e.sockets) 0)) b.subscriptions

-- The message of an `emit` whose snapshot has come, with its number, to what the set of subscribers
-- that it has read holds by then.
unfoldable pub emit_finishes :
    RealtimeLimits
    → (ℕ → Bool)
    → (ℕ → ℕ)
    → String
    → List ℕ
    → Broadcaster
    → (ℕ × List (ℕ × Delivery)) × Broadcaster
emit_finishes limits is_open buffered channel subscribers b =
    let (number, after) = next_sequence channel b in
    ((number, map (λ s. (s, send_to_socket limits (is_open s) (buffered s))) subscribers), after)

-- ===== src/Realtime/Leak.antt =====
-- A socket that closes while its message handler waits for a snapshot, in
-- backend/src/services/realtime.ts.
use ckb_dex.Prelude.{
  ℕ, String, Bool, true, false, List, [], ◌∷◌, ◌≡◌, none, arith, refl, Bool-cases, inl, inr, any,
  eqb, ◌==◌, ◌&&◌, filter, not, length, eq_refl, ◌∙◌, ◌++◌, eqb→eq, some,
}
use ckb_dex.Realtime.{
  Broadcaster, Subscribers, Handler, add_subscriber, unsubscribe, release, resume, leave, own,
  owned_by, holds_socket, drop_socket, is_socket, Connection, subscribe_next, subscribe,
  next_sequence,
}
use ckb_dex.Realtime.Steps.{is_connected}

-- Whether a socket is among the subscribers of a channel.
abbrev pub subscribes : ℕ → String → List Subscribers → Bool
subscribes s channel es = any (λ e. (e.channel == channel) && holds_socket s e.sockets) es

holds-append : (s : ℕ) (ss : List ℕ) → holds_socket s (ss ++ s ∷ []) ≡ true
holds-append s [] = ground arith
holds-append s (t ∷ ts) = ground (arith, holds-append s ts)

holds-drop :
    (s t : ℕ) (ss : List ℕ)
    → eqb t s ≡ false
    → holds_socket s ss ≡ true
    → holds_socket s (drop_socket t ss) ≡ true
holds-drop s t [] other h = cc
holds-drop s t (x ∷ xs) other h = ground (arith, holds-drop s t xs)

subscribes-add :
    (s : ℕ) (channel : String) (es : List Subscribers)
    → subscribes s channel (add_subscriber s channel es) ≡ true
unfolding add_subscriber
subscribes-add s channel [] = ground (arith, eq_refl channel)
subscribes-add s channel (e ∷ es) =
    ground (arith, holds-append s e.sockets, subscribes-add s channel es)

not_empty : (s : ℕ) (ss : List ℕ) → holds_socket s ss ≡ true → eqb (length ss) 0 ≡ false
not_empty s [] h = cc
not_empty s (x ∷ xs) h = ground arith

subscribes-unsubscribe :
    (s t : ℕ) (channel left : String) (es : List Subscribers)
    → eqb t s ≡ false
    → subscribes s channel es ≡ true
    → subscribes s channel (unsubscribe t left es) ≡ true
unfolding unsubscribe
subscribes-unsubscribe s t channel left [] other h = h
subscribes-unsubscribe s t channel left (e ∷ es) other h = ground (
  arith,
  holds-drop s t e.sockets other,
  not_empty s (drop_socket t e.sockets),
  subscribes-unsubscribe s t channel left es other,
)

subscribes-leave :
    (s t : ℕ) (channel : String) (channels : List String) (b : Broadcaster)
    → eqb t s ≡ false
    → subscribes s channel b.subscriptions ≡ true
    → subscribes s channel (leave t channels b).subscriptions ≡ true
unfolding leave
subscribes-leave s t channel [] b other h = h
subscribes-leave s t channel (c ∷ cs) b other h =
    subscribes-leave s t channel cs _ other
      (subscribes-unsubscribe s t channel c b.subscriptions other h)

gone :
    (s : ℕ) (cs : List Connection) → is_connected s (filter (λ c. not (is_socket s c)) cs) ≡ false
gone s [] = refl
gone s (c ∷ cs) = ground (arith, gone s cs)

connected-own :
    (s : ℕ) (channel : String) (cs : List Connection)
    → is_connected s (own s channel cs) ≡ is_connected s cs
unfolding own
connected-own s channel [] = refl
connected-own s channel (c ∷ cs) = ground (arith, connected-own s channel cs)

owned_none : (s : ℕ) (cs : List Connection) → is_connected s cs ≡ false → owned_by s cs ≡ none
unfolding owned_by
owned_none s [] h = refl
owned_none s (c ∷ cs) h = ground (arith, owned_none s cs)

-- No release removes a subscriber that is not connected.
release_keeps :
    (s t : ℕ) (ip channel : String) (b : Broadcaster)
    → is_connected s b.channels_by_socket ≡ false
    → subscribes s channel b.subscriptions ≡ true
    → subscribes s channel (release t ip b).subscriptions ≡ true
unfolding release leave
release_keeps s t ip channel b away h = elim (Bool-cases (eqb t s)) [
  | inl same ↦
      let e = eqb→eq t s same in
      let none_owned : owned_by t b.channels_by_socket ≡ none =
        rw e (owned_none s b.channels_by_socket away) in
      rw (none_owned, release) h
  | inr other ↦
      let owned : List String = elim (owned_by t b.channels_by_socket) [
        | none ↦ []
        | some channels ↦ channels
      ] in
      subscribes-leave s t channel owned b other h
]

module _ (s : ℕ) (ip waiting channel : String) (rest : List String) (others : List Handler)
    (b : Broadcaster) where
  abbrev pub resumed : Broadcaster
  resumed =
      resume (record { client = s; waiting = waiting; rest = channel ∷ rest }) others
        (release s ip b)

  resumed_away : is_connected s resumed.channels_by_socket ≡ false
  unfolding resume subscribe_next subscribe next_sequence release
  resumed_away = connected-own s channel _ ∙ gone s b.channels_by_socket

  resumed_subscribes : subscribes s channel resumed.subscriptions ≡ true
  unfolding resume subscribe_next subscribe next_sequence release
  resumed_subscribes = subscribes-add s channel _

-- A subscription leaks: where a socket closes while its handler waits for a snapshot and has a
-- further channel, the handler goes on and subscribes the closed socket to that channel. The socket
-- has no connection then, and no later release of any socket removes it from the channel.
pub closed_socket_leaks :
    (s : ℕ) (ip waiting channel : String) (rest : List String) (others : List Handler)
    (b : Broadcaster)
    → (is_connected s (resumed s ip waiting channel rest others b).channels_by_socket ≡ false)
      × (subscribes s channel (resumed s ip waiting channel rest others b).subscriptions ≡ true)
      × ((t : ℕ) (ip' : String)
          → subscribes s channel
              (release t ip' (resumed s ip waiting channel rest others b)).subscriptions
            ≡ true)
closed_socket_leaks s ip waiting channel rest others b =
    let away = resumed_away s ip waiting channel rest others b in
    let stays = resumed_subscribes s ip waiting channel rest others b in
    (
      away,
      stays,
      λ t ip'.
          release_keeps s t ip' channel (resumed s ip waiting channel rest others b) away stays,
    )

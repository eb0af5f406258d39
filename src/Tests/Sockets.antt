-- ===== src/Tests/Sockets.antt =====
-- The laws of the broadcaster, for a client of two channels that leaves during the first snapshot.
use ckb_dex.Prelude.{ℕ, String, Bool, true, false, [], ◌∷◌, ◌≡◌, refl, arith}
use ckb_dex.Realtime.{
  Broadcaster, default_realtime_limits, connect, receive, release, owned_by, subscribe_next,
  subscribe, own, add_subscriber,
}
use ckb_dex.Realtime.Steps.{Run, Step, is_connected}
use ckb_dex.Realtime.Bounds.{run-IsBounded}
use ckb_dex.Realtime.Leak.{closed_socket_leaks, resumed, subscribes}
use ckb_dex.Realtime.Sockets.{IsBounded}
use ckb_dex.Projection.Spend.{distinct}

abbrev empty : Broadcaster
empty = record {
  sequence_by_channel = λ channel. 0;
  subscriptions = [];
  channels_by_socket = [];
  connections_by_ip = λ ip. 0;
  handlers = [];
}

abbrev valid : String → Bool
valid channel = true

abbrev address : ℕ → String
address s = "10.0.0.1"

abbrev opened : Broadcaster
opened = (connect default_realtime_limits 7 "10.0.0.1" empty).1

abbrev waiting : Broadcaster
waiting = (receive default_realtime_limits valid 7 ("a" ∷ "b" ∷ []) opened).1

abbrev closed : Broadcaster
closed = release 7 "10.0.0.1" waiting

empty-IsBounded : IsBounded default_realtime_limits address empty
empty-IsBounded = record {
  within = omega arith;
  counted = λ ip. refl;
  within_ip = λ ip. omega arith;
  unique = tt;
}

connected : is_connected 7 waiting.channels_by_socket ≡ true
unfolding connect receive owned_by distinct subscribe_next subscribe own add_subscriber
connected = refl

run : Run default_realtime_limits valid address empty closed
run =
    Run.then_step empty waiting closed
      (Run.then_step empty opened waiting
        (Run.then_step empty empty opened (Run.done empty) (Step.connects 7 empty refl))
        (Step.receives 7 ("a" ∷ "b" ∷ []) opened))
      (Step.closes 7 waiting connected)

run-IsBounded_example : IsBounded default_realtime_limits address closed
run-IsBounded_example =
    run-IsBounded default_realtime_limits valid address empty closed run empty-IsBounded

closed_socket_leaks_example :
    (is_connected 7 (resumed 7 "10.0.0.1" "a" "b" [] [] waiting).channels_by_socket ≡ false)
    × (subscribes 7 "b" (resumed 7 "10.0.0.1" "a" "b" [] [] waiting).subscriptions ≡ true)
    × ((t : ℕ) (ip' : String)
        → subscribes 7 "b"
            (release t ip' (resumed 7 "10.0.0.1" "a" "b" [] [] waiting)).subscriptions
          ≡ true)
closed_socket_leaks_example = closed_socket_leaks 7 "10.0.0.1" "a" "b" [] [] waiting

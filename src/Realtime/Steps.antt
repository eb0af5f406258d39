-- ===== src/Realtime/Steps.antt =====
-- The interleavings of backend/src/services/realtime.ts: a step runs a handler to its next `await`
-- or to its end.
use ckb_dex.Prelude.{ℕ, String, Bool, true, false, List, ◌∷◌, ◌++◌, ◌≡◌, any}
use ckb_dex.Realtime.{
  emit_finishes, Broadcaster, Handler, RealtimeLimits, connect, receive, resume, release,
  Connection, is_socket,
}

-- Whether a socket has its set of channels.
abbrev pub is_connected : ℕ → List Connection → Bool
is_connected s cs = any (is_socket s) cs

-- `ip_of` is the address of a socket.
module _ (limits : RealtimeLimits) (is_valid : String → Bool) (ip_of : ℕ → String) where
  pub data Step : Broadcaster → Broadcaster → Type 0 where
    -- A new socket.
    connects :
        (s : ℕ) (b : Broadcaster)
        → is_connected s b.channels_by_socket ≡ false
        → Step b (connect limits s (ip_of s) b).1
    receives :
        (s : ℕ) (channels : List String) (b : Broadcaster)
        → Step b (receive limits is_valid s channels b).1
    -- A snapshot has come, or the query has thrown.
    resumes :
        (h : Handler) (before after : List Handler) (b : Broadcaster)
        → b.handlers ≡ before ++ h ∷ after
        → Step b (resume h (before ++ after) b)
    fails :
        (h : Handler) (before after : List Handler) (b : Broadcaster)
        → b.handlers ≡ before ++ h ∷ after
        → Step b (record b { handlers = before ++ after })
    -- The snapshot of an update has come.
    emits :
        (is_open : ℕ → Bool) (buffered : ℕ → ℕ) (channel : String) (subscribers : List ℕ)
        (b : Broadcaster)
        → Step b (emit_finishes limits is_open buffered channel subscribers b).1
    -- An open socket closes.
    closes :
        (s : ℕ) (b : Broadcaster)
        → is_connected s b.channels_by_socket ≡ true
        → Step b (release s (ip_of s) b)

  -- Any number of steps.
  pub data Run : Broadcaster → Broadcaster → Type 0 where
    done : (b : Broadcaster) → Run b b
    then_step : (b c d : Broadcaster) → Run b c → Step c d → Run b d

-- ===== src/Access.antt =====
-- backend/src/middleware/index.ts: the rate limiter of the public API, the check of the bot's
-- token, and the answers to errors. The windows of the limiter are a list in insertion order.
pub mod Limits
use Prim.Native.String
use Prim.Native.Char.{code}
use ckb_dex.Prelude.{
  ℕ, String, List, Bool, some, Option, ◌∷◌, leb, if◌then◌else◌, none, ◌==◌, ◌+◌, ltb, length, false,
  ◌&&◌, eqb, [], ◌-◌, filter, not, ◌/◌, ◌||◌,
}
use ckb_dex.Prelude.Result.{Failure, app_error, other_error}

pub record RateLimitOptions : Type 0 where
  pub window_ms : ℕ
  pub max_requests : ℕ
  pub max_clients : ℕ

pub record Window : Type 0 where
  pub client : String
  pub start : ℕ
  pub count : ℕ

-- What the limiter answers: the request goes on, or a 429 with or without `retry-after`.
pub data Verdict : Type 0 where
  admitted : (remaining : ℕ) → Verdict
  limited : (retry_after : ℕ) → Verdict
  shed : Verdict

unfoldable pub find_window : String → List Window → Option Window
find_window key [] = none
find_window key (w ∷ ws) =
    let later = find_window key ws in if w.client == key then some w else later

-- `Map.set`: a client keeps its place.
unfoldable pub put_window : Window → List Window → List Window
put_window w [] = w ∷ []
put_window w (v ∷ vs) =
    let later = put_window w vs in if v.client == w.client then w ∷ vs else v ∷ later

module _ (o : RateLimitOptions) (key : String) (now : ℕ) where
  -- `now - start >= windowMs`
  abbrev pub is_over : Window → Bool
  is_over w = leb (w.start + o.window_ms) now

  -- The increment of the entry, which the map holds, and the answer.
  unfoldable pub count_request : ℕ → ℕ → List Window → Verdict × List Window
  count_request start count ws = (
    if ltb o.max_requests (count + 1)
        then limited ((start + o.window_ms - now + 999) / 1000)
        else admitted (o.max_requests - (count + 1)),
    put_window (record { client = key; start = start; count = count + 1 }) ws,
  )

  -- The windows past the sweep, which runs where there are too many.
  unfoldable pub sweep : List Window → List Window
  sweep ws = if leb o.max_clients (length ws) then filter (λ w. not (is_over w)) ws else ws

  unfoldable pub open_window : List Window → Verdict × List Window
  open_window ws =
      let swept = sweep ws in
      if leb o.max_clients (length swept) then (shed, swept) else count_request now 0 swept

  unfoldable pub rate_limiter : List Window → Verdict × List Window
  rate_limiter ws = elim (find_window key ws) [
    | none ↦ open_window ws
    | some w ↦ if is_over w then open_window ws else count_request w.start w.count ws
  ]

-- The rest of a text behind a prefix.
unfoldable pub strip_prefix : String → String → Option String
strip_prefix String.[] s = some s
strip_prefix (String.◌∷◌ c p) String.[] = none
strip_prefix (String.◌∷◌ c p) (String.◌∷◌ d s) =
    let rest = strip_prefix p s in if eqb (code c) (code d) then rest else none

-- `digest` is the hex text of the SHA-256 of a text, from node:crypto.
module _ (digest : String → String) where
  unfoldable pub tokens_match : Option String → String → Bool
  tokens_match none expected = false
  tokens_match (some provided) expected = digest provided == digest expected

  abbrev pub bearer_of : Option String → Option String
  bearer_of none = none
  bearer_of (some header) = strip_prefix "Bearer " header

  -- Whether the request goes on; a missing or empty expected token lets none pass.
  unfoldable pub internal_bot_auth : Option String → Option String → Option String → Bool
  internal_bot_auth none authorization header = false
  internal_bot_auth (some expected) authorization header =
      not (expected == "")
      && (tokens_match (bearer_of authorization) expected || tokens_match header expected)

-- An error that reaches the handler: one of the services, one of a schema, or another one with the
-- status that it may carry.
pub data Thrown : Type 0 where
  of_app : (status_code : ℕ) (message : String) → Thrown
  of_schema : (message : String) → Thrown
  of_other : (status : Option ℕ) → Thrown

abbrev is_client_error : ℕ → Bool
is_client_error status = leb 400 status && ltb status 500

-- The status and the message of the answer.
unfoldable pub error_handler : Thrown → ℕ × String
error_handler (of_app status message) = (status, message)
error_handler (of_schema message) = (400, message)
error_handler (of_other none) = (500, "Internal server error")
error_handler (of_other (some status)) =
    if is_client_error status
    then (status, if eqb status 413 then "Request body too large" else "Malformed request")
    else (500, "Internal server error")

-- ===== src/Bot/Trade/Stuck.antt =====
-- An order that its maker has cancelled on the chain, in `executeTrade` of
-- backend/src/bot/index.ts.
use ckb_dex.Prelude.{Bool, false}
use ckb_dex.Bot.Node.{Node}
use ckb_dex.Order.{Order}
use ckb_dex.Prelude.Result.{Result, ok, err}

abbrev is_live_answer : Result Bool → Bool
is_live_answer (ok alive) = alive
is_live_answer (err e) = false

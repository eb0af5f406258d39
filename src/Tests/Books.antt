-- ===== src/Tests/Books.antt =====
-- The laws of the projection, the book and its health, at the orders of the test data.
use ckb_dex.Prelude.{◌≡◌, some, none, refl, [], All, ◌⊎◌, filter, inr, ◌<◌}
use ckb_dex.Order.{Order, reverted}
use ckb_dex.Events.{trade_confirmed, order_confirmed, chain_reorg, BotEvent}
use ckb_dex.Tests.Data.{book, traded, opened, event_of, value_of, reorg, cancelled_buy, submitted}
use ckb_dex.Projection.Spend.{fill_order, apply_trade_confirmed, selected}
use ckb_dex.Projection.Trades.{confirmed_trade_atomic, FilledBy, Recorded, legs, untouched}
use ckb_dex.Prelude.Result.{ok}
use ckb_dex.Projection.Lifecycle.{
  can_transition, Applied, ignored, applied, Projection, to_order_id, ignore,
}
use ckb_dex.Projection.Transitions.{Stepwise, spend_events_move_by_table}
use ckb_dex.Projection.Reorg.{apply_chain_reorg, rollback_from}
use ckb_dex.Projection.Confirm.{already_indexed, apply_order_confirmed}
use ckb_dex.Projection.{apply_event, apply_body}
use ckb_dex.Projection.Rollback.{IsRolledBack, reorg_rolls_back}
use ckb_dex.Projection.Confirmed.{redelivery_ignored}
use ckb_dex.Projection.Invariants.{WritesNothing, ignored-WritesNothing}

abbrev trade_event : BotEvent
trade_event = event_of "e1" (some "0xb12") (trade_confirmed traded)

abbrev after_trade : Applied
after_trade = value_of trade_event book (apply_trade_confirmed trade_event traded book)

after_trade_lem : apply_trade_confirmed trade_event traded book ≡ ok after_trade
unfolding apply_trade_confirmed to_order_id can_transition
after_trade_lem = refl

confirmed_trade_atomic_example :
    ((after_trade.result.status ≡ ignored)
      × (after_trade.projection ≡ book)
      × (after_trade.after_commit ≡ []))
    ⊎ ((after_trade.result.status ≡ applied)
        × All (FilledBy traded) (filter (selected (legs traded)) after_trade.projection.orders)
        × (untouched (legs traded) after_trade.projection.orders
            ≡ untouched (legs traded) book.orders)
        × Recorded traded after_trade.projection.trades)
confirmed_trade_atomic_example =
    confirmed_trade_atomic trade_event traded book after_trade after_trade_lem

spend_events_move_by_table_example : Stepwise book.orders after_trade.projection.orders
spend_events_move_by_table_example =
    spend_events_move_by_table trade_event cancelled_buy submitted traded book after_trade
      (inr (inr after_trade_lem))

abbrev reorg_event : BotEvent
reorg_event = event_of "e2" none (chain_reorg reorg)

abbrev after_reorg : Applied
after_reorg =
    value_of reorg_event after_trade.projection
      (apply_chain_reorg reorg_event reorg after_trade.projection)

after_reorg_lem : apply_chain_reorg reorg_event reorg after_trade.projection ≡ ok after_reorg
unfolding apply_chain_reorg
after_reorg_lem = refl

reorg_rolls_back_example :
    (after_reorg.result.status ≡ applied)
    × All (IsRolledBack (rollback_from reorg)) after_reorg.projection.orders
    × All
        (λ t. (t.block_number < rollback_from reorg) ⊎ (t.status ≡ reverted))
        after_reorg.projection.trades
unfolding apply_trade_confirmed to_order_id can_transition fill_order
reorg_rolls_back_example =
    reorg_rolls_back reorg_event reorg after_trade.projection after_reorg (refl, (refl, tt))
      after_reorg_lem

abbrev order_event : BotEvent
order_event = event_of "e3" (some "0xb12") (order_confirmed opened)

abbrev after_order : Applied
after_order = value_of order_event book (apply_order_confirmed order_event opened book)

after_order_lem : apply_order_confirmed order_event opened book ≡ ok after_order
unfolding apply_order_confirmed already_indexed to_order_id
after_order_lem = refl

abbrev after_order_status : after_order.result.status ≡ applied
unfolding apply_order_confirmed already_indexed to_order_id
after_order_status = refl

redelivery_ignored_example :
    apply_order_confirmed order_event opened after_order.projection
    ≡ ok (ignore order_event.event_id "order-already-indexed" after_order.projection)
redelivery_ignored_example =
    redelivery_ignored order_event order_event opened book after_order "0xb12" refl refl
      after_order_lem

-- A book without orders, on which the trade is ignored.
abbrev empty_book : Projection
empty_book = record { orders = []; trades = [] }

abbrev after_nothing : Applied
after_nothing = value_of trade_event empty_book (apply_event trade_event empty_book)

after_nothing_lem : apply_event trade_event empty_book ≡ ok after_nothing
unfolding apply_event apply_body apply_trade_confirmed
after_nothing_lem = refl

ignored-WritesNothing_example : WritesNothing empty_book after_nothing
unfolding apply_event apply_body apply_trade_confirmed
ignored-WritesNothing_example =
    ignored-WritesNothing trade_event empty_book after_nothing after_nothing_lem refl

abbrev after_event : Applied
after_event = value_of trade_event book (apply_event trade_event book)

after_event_lem : apply_event trade_event book ≡ ok after_event
unfolding apply_event apply_body apply_trade_confirmed to_order_id can_transition
after_event_lem = refl

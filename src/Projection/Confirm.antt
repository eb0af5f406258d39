-- ===== src/Projection/Confirm.antt =====
-- backend/src/services/event-ingestion.ts: `applyOrderConfirmed`.
use Prim.Native.String
use ckb_dex.Prelude.{Bool, false, not, ◌&&◌, Option, none, some, [], ◌∷◌, if◌then◌else◌}
use ckb_dex.Prelude.Result.{Result, ok}
use ckb_dex.Order.{Order, live, orphaned, status_eq, find_by_id, upsert, same_text, or_keep}
use ckb_dex.Events.{BotEvent, OrderConfirmed}
use ckb_dex.Projection.Lifecycle.{
  Projection, Applied, emit_orderbook, emit_maker_orders, to_order_id, ignore, apply,
}

-- The document that the upsert inserts; an optional field of the event that is absent stays absent.
unfoldable pub new_order : BotEvent → OrderConfirmed → Order
new_order event e =
    let o = e.order in
    record {
      id = to_order_id e.out_point;
      out_point = e.out_point;
      lock_script = o.lock_script;
      type_script = o.type_script;
      cell_data = o.cell_data;
      capacity = o.capacity;
      owner_lock = o.owner_lock;
      owner_lock_hash = o.owner_lock_hash;
      owner_address = o.owner_address;
      direction = o.direction;
      price_per_token = o.price_per_token;
      remaining_amount = o.token_amount;
      token_pair = String.◌++◌ o.xudt_type_hash ":CKB";
      xudt_type_hash = o.xudt_type_hash;
      block_number = o.block_number;
      tx_index = o.tx_index;
      status = live;
      reserved_until = none;
      pending_tx_hash = none;
      settlement_tx_hash = none;
      last_event_id = some event.event_id;
      confirmed_at_block = event.block_number;
      created_at_block = some o.block_number;
      price_value = some o.price_per_token;
      block_num = some o.block_number;
      tx_idx = some o.tx_index;
      created_block_hash = event.block_hash;
      spent_at_block = none;
      spent_block_hash = none;
    }

-- The same update on a document that exists: `$set` skips what the event leaves undefined.
unfoldable pub confirm_order : BotEvent → OrderConfirmed → Order → Order
unfolding new_order
confirm_order event e old =
    let fresh = new_order event e in
    record fresh {
      id = old.id;
      type_script = or_keep e.order.type_script old.type_script;
      owner_address = or_keep e.order.owner_address old.owner_address;
      confirmed_at_block = or_keep event.block_number old.confirmed_at_block;
      created_block_hash = or_keep event.block_hash old.created_block_hash;
    }

-- `existing != undefined && existing.createdBlockHash === event.blockHash && …`
unfoldable pub already_indexed : BotEvent → Option Order → Bool
already_indexed event none = false
already_indexed event (some existing) =
    same_text existing.created_block_hash event.block_hash
    && not (status_eq existing.status orphaned)

unfoldable pub apply_order_confirmed : BotEvent → OrderConfirmed → Projection → Result Applied
apply_order_confirmed event e p =
    let order_id = to_order_id e.out_point in
    if already_indexed event (find_by_id order_id p.orders)
    then ok (ignore event.event_id "order-already-indexed" p)
    else ok (
        apply event.event_id
          (record p {
            orders = upsert order_id (confirm_order event e) (new_order event e) p.orders;
          })
          (emit_orderbook e.order.xudt_type_hash ∷ emit_maker_orders e.order.owner_lock_hash ∷ []))

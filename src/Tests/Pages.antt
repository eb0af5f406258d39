-- ===== src/Tests/Pages.antt =====
-- The walks through the listings, with a plain text for cursors and pages of two rows.
use Prim.Native.Char.{code}
use ckb_dex.Prelude.{
  ℕ, zero, suc, String, Option, some, none, ◌≡◌, refl, List, [], ◌∷◌, eqb, if◌then◌else◌, All, ap,
  filter, true, arith,
}
use ckb_dex.Prelude.Result.{ok}
use ckb_dex.Order.{bid, ask, confirmed, Order, Trade}
use ckb_dex.Market.Keyset.{CursorText, walk_pages, sort_by}
use ckb_dex.Market.Walks.{order_book_pages, trades_pages, order_list_pages, HasSortKeys}
use ckb_dex.Tests.Data.{order_of, out_point_of}
use ckb_dex.Market.Listings.{
  TradeCursor, OrderListCursor, OrderBookCursor, OrderBookQuery, TradesQuery, StoredOrder,
  OrderQuery, order_book_listing, trades_listing, order_list_listing, book_before,
}

-- A number and what follows it.
put : ℕ → String → String
put zero rest = String.◌∷◌ "," rest
put (suc n) rest = String.◌∷◌ "1" (put n rest)

next : Option (ℕ × String) → Option (ℕ × String)
next none = none
next (some (n, rest)) = some (suc n, rest)

get : String → Option (ℕ × String)
get String.[] = none
get (String.◌∷◌ c s) = if eqb (code c) 49 then next (get s) else some (0, s)

get-put : (n : ℕ) (rest : String) → get (put n rest) ≡ some (n, rest)
unfolding get put next
get-put zero rest = refl
get-put (suc n) rest = rw (get-put n rest) refl

trade_cursor_of : Option (ℕ × String) → Option TradeCursor
trade_cursor_of none = none
trade_cursor_of (some (b, i)) = some (record { b = b; i = i })

list_cursor_of : Option (ℕ × String) → Option OrderListCursor
list_cursor_of none = none
list_cursor_of (some (c, i)) = some (record { c = c; i = i })

trade_texts : CursorText TradeCursor
unfolding trade_cursor_of
trade_texts = record {
  encode = λ c. put c.b c.i;
  decode = λ s. trade_cursor_of (get s);
  decode_lem = λ c. ap trade_cursor_of (get-put c.b c.i);
}

list_texts : CursorText OrderListCursor
unfolding list_cursor_of
list_texts = record {
  encode = λ c. put c.c c.i;
  decode = λ s. list_cursor_of (get s);
  decode_lem = λ c. ap list_cursor_of (get-put c.c c.i);
}

price_read : ℕ → ℕ → Option (ℕ × String) → Option OrderBookCursor
price_read p b none = none
price_read p b (some (t, i)) = some (record { p = p; b = b; t = t; i = i })

block_read : ℕ → Option (ℕ × String) → Option OrderBookCursor
unfolding get
block_read p none = none
block_read p (some (b, s)) = price_read p b (get s)

book_read : Option (ℕ × String) → Option OrderBookCursor
unfolding get
book_read none = none
book_read (some (p, s)) = block_read p (get s)

book_read_lem : (c : OrderBookCursor) → book_read (get (put c.p (put c.b (put c.t c.i)))) ≡ some c
unfolding book_read block_read price_read
book_read_lem c =
    rw (get-put c.p (put c.b (put c.t c.i)), get-put c.b (put c.t c.i), get-put c.t c.i) refl

book_texts : CursorText OrderBookCursor
unfolding get put
book_texts = record {
  encode = λ c. put c.p (put c.b (put c.t c.i));
  decode = λ s. book_read (get s);
  decode_lem = book_read_lem;
}

abbrev bids : List Order
bids =
    order_of "0x1:0" "0x1" bid
    ∷ record (order_of "0x2:0" "0x2" bid) { price_value = some 7 }
    ∷ order_of "0x3:0" "0x3" bid
    ∷ []

abbrev keyed_at :
    (o : Order) (price : ℕ)
    → o.price_value ≡ some price
    → o.block_num ≡ some 10
    → o.tx_idx ≡ some 1
    → HasSortKeys o
keyed_at o price e f g = record {
  price = price;
  block = 10;
  index = 1;
  price_lem = e;
  block_lem = f;
  index_lem = g;
}

bids_keyed : All HasSortKeys bids
bids_keyed =
    (keyed_at _ 5 refl refl refl, (keyed_at _ 7 refl refl refl, (keyed_at _ 5 refl refl refl, tt)))

abbrev best_bids : OrderBookQuery
best_bids = record { xudt_type_hash = some "0xt"; direction = some bid; limit = 2; cursor = none }

order_book_pages_example :
    walk_pages (order_book_listing best_bids) book_texts 2 4 none bids
    ≡ ok (sort_by (book_before true) (filter (order_book_listing best_bids).wanted bids))
order_book_pages_example =
    order_book_pages book_texts best_bids bids 4 refl (refl, (refl, (refl, tt))) bids_keyed
      (omega arith)

abbrev trade_at : String → ℕ → Trade
trade_at id block = record {
  id = id;
  settlement_tx_hash = id;
  buy_order_out_point = out_point_of "0xb";
  sell_order_out_point = out_point_of "0xs";
  buyer_lock_hash = "0xaa";
  seller_lock_hash = "0xaa";
  xudt_type_hash = "0xt";
  token_amount = 100;
  price = 5;
  paid_capacity = 5;
  block_number = block;
  block_hash = "0xb12";
  confirmed_at_block = block;
  block_num = some block;
  status = confirmed;
  last_event_id = "e1";
}

abbrev trades : List Trade
trades = trade_at "0x1" 10 ∷ trade_at "0x2" 12 ∷ trade_at "0x3" 10 ∷ []

abbrev all_trades : TradesQuery
all_trades = record { xudt_type_hash = none; limit = 2; cursor = none }

trades_pages_example :
    walk_pages (trades_listing all_trades) trade_texts 2 4 none trades
    ≡ ok (
        sort_by
          (trades_listing all_trades).before
          (filter (trades_listing all_trades).wanted trades))
trades_pages_example =
    trades_pages trade_texts all_trades trades 4 refl (refl, (refl, (refl, tt)))
      (refl, (refl, (refl, tt))) (omega arith)

abbrev stored_orders : List StoredOrder
stored_orders =
    record { order = order_of "0x1:0" "0x1" bid; created_at = 5 }
    ∷ record { order = order_of "0x2:0" "0x2" ask; created_at = 9 }
    ∷ record { order = order_of "0x3:0" "0x3" bid; created_at = 5 }
    ∷ []

abbrev of_maker : OrderQuery
of_maker = record {
  xudt_type_hash = none;
  maker_lock_hash = some "0xaa";
  direction = none;
  status = none;
  limit = 2;
  cursor = none;
}

order_list_pages_example :
    walk_pages (order_list_listing of_maker) list_texts 2 4 none stored_orders
    ≡ ok (
        sort_by
          (order_list_listing of_maker).before
          (filter (order_list_listing of_maker).wanted stored_orders))
order_list_pages_example =
    order_list_pages list_texts of_maker stored_orders 4 refl (refl, (refl, (refl, tt)))
      (omega arith)

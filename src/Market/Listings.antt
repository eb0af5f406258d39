-- ===== src/Market/Listings.antt =====
-- The handlers of backend/src/routes/market.ts: the order book, the orders, the trades, one order
-- and the markets. The queries are those that the schemas have accepted; `created_at` is the time
-- stamp that the database gives a document.
use ckb_dex.Prelude.{
  ℕ, String, Bool, true, false, List, Option, some, none, not, ◌&&◌, ◌||◌, ◌==◌, ltb, eqb, find,
  map,
}
use ckb_dex.Prelude.Result.{Result, ok, err, other_error}
use ckb_dex.Order.{Order, Trade, OrderDirection, OrderStatus, bid, live, status_eq, direction_eq}
use ckb_dex.Market.Keyset.{Listing, CursorText, Page, list_page}
use ckb_dex.Market.Texts.{text_below}
use ckb_dex.Projection.Spend.{or_default, distinct}
use ckb_dex.Projection.Reorg.{is_reverted}

-- A field that a query may name.
abbrev pub asks_for : {A : Type 0} → (A → A → Bool) → Option A → A → Bool
asks_for same none a = true
asks_for same (some wanted) a = same a wanted

abbrev pub text_eq : String → String → Bool
text_eq s t = s == t

-- The sort keys as the database compares them: a missing key is below every number.
abbrev pub key_below : Option ℕ → Option ℕ → Bool
key_below none none = false
key_below none (some n) = true
key_below (some m) none = false
key_below (some m) (some n) = ltb m n

abbrev pub key_eq : Option ℕ → Option ℕ → Bool
key_eq none none = true
key_eq none (some n) = false
key_eq (some m) none = false
key_eq (some m) (some n) = eqb m n

-- `$gt`, `$lt` and equality with a number: a missing key does not match.
abbrev pub key_above : ℕ → Option ℕ → Bool
key_above n none = false
key_above n (some m) = ltb n m

abbrev pub key_under : ℕ → Option ℕ → Bool
key_under n none = false
key_under n (some m) = ltb m n

abbrev pub key_is : ℕ → Option ℕ → Bool
key_is n none = false
key_is n (some m) = eqb m n

pub record OrderBookQuery : Type 0 where
  pub xudt_type_hash : Option String
  pub direction : Option OrderDirection
  pub limit : ℕ
  pub cursor : Option String

pub record OrderBookCursor : Type 0 where
  pub p : ℕ
  pub b : ℕ
  pub t : ℕ
  pub i : String

-- `query.direction === "BID" ? -1 : 1`
abbrev pub descends : Option OrderDirection → Bool
descends none = false
descends (some d) = direction_eq d bid

abbrev pub price_before : Bool → Option ℕ → Option ℕ → Bool
price_before true x y = key_below y x
price_before false x y = key_below x y

abbrev pub past_price : Bool → ℕ → Option ℕ → Bool
past_price true n x = key_under n x
past_price false n x = key_above n x

abbrev pub book_before : Bool → Order → Order → Bool
book_before descending a b =
    price_before descending a.price_value b.price_value
    || (key_eq a.price_value b.price_value
        && (key_below a.block_num b.block_num
            || (key_eq a.block_num b.block_num
                && (key_below a.tx_idx b.tx_idx
                    || (key_eq a.tx_idx b.tx_idx && text_below a.id b.id)))))

-- `filter.$or`
abbrev pub past_in_book : Bool → OrderBookCursor → Order → Bool
past_in_book descending c o =
    past_price descending c.p o.price_value
    || ((key_is c.p o.price_value && key_above c.b o.block_num)
        || ((key_is c.p o.price_value && (key_is c.b o.block_num && key_above c.t o.tx_idx))
            || (key_is c.p o.price_value
                && (key_is c.b o.block_num && (key_is c.t o.tx_idx && text_below c.i o.id)))))

-- `last.priceValue!.toString()` throws on a missing price.
unfoldable pub book_cursor : Order → Result OrderBookCursor
book_cursor o = elim o.price_value [
  | none ↦ err (other_error "Cannot read properties of undefined (reading 'toString')")
  | some price ↦
      ok (record { p = price; b = or_default o.block_num 0; t = or_default o.tx_idx 0; i = o.id })
]

abbrev pub order_book_listing : OrderBookQuery → Listing Order OrderBookCursor
order_book_listing q = record {
  wanted = λ o.
      status_eq o.status live
      && (asks_for text_eq q.xudt_type_hash o.xudt_type_hash
          && asks_for direction_eq q.direction o.direction);
  past = past_in_book (descends q.direction);
  before = book_before (descends q.direction);
  cursor_of = book_cursor;
}

unfoldable pub order_book :
    CursorText OrderBookCursor → OrderBookQuery → List Order → Result (Page Order)
order_book texts q orders = list_page (order_book_listing q) texts q.limit q.cursor orders

-- A document of the orders with its time stamp.
pub record StoredOrder : Type 0 where
  pub order : Order
  pub created_at : ℕ

pub record OrderQuery : Type 0 where
  pub xudt_type_hash : Option String
  pub maker_lock_hash : Option String
  pub direction : Option OrderDirection
  pub status : Option OrderStatus
  pub limit : ℕ
  pub cursor : Option String

pub record OrderListCursor : Type 0 where
  pub c : ℕ
  pub i : String

abbrev pub order_list_listing : OrderQuery → Listing StoredOrder OrderListCursor
order_list_listing q = record {
  wanted = λ o.
      asks_for text_eq q.maker_lock_hash o.order.owner_lock_hash
      && (asks_for text_eq q.xudt_type_hash o.order.xudt_type_hash
          && (asks_for direction_eq q.direction o.order.direction
              && asks_for status_eq q.status o.order.status));
  past = λ c o. ltb o.created_at c.c || (eqb o.created_at c.c && text_below c.i o.order.id);
  before = λ a b.
      ltb b.created_at a.created_at
      || (eqb b.created_at a.created_at && text_below a.order.id b.order.id);
  cursor_of = λ o. ok (record { c = o.created_at; i = o.order.id });
}

unfoldable pub list_orders :
    CursorText OrderListCursor → OrderQuery → List StoredOrder → Result (Page StoredOrder)
list_orders texts q orders = list_page (order_list_listing q) texts q.limit q.cursor orders

pub record TradesQuery : Type 0 where
  pub xudt_type_hash : Option String
  pub limit : ℕ
  pub cursor : Option String

pub record TradeCursor : Type 0 where
  pub b : ℕ
  pub i : String

abbrev pub trades_listing : TradesQuery → Listing Trade TradeCursor
trades_listing q = record {
  wanted = λ t. not (is_reverted t.status) && asks_for text_eq q.xudt_type_hash t.xudt_type_hash;
  past = λ c t. key_under c.b t.block_num || (key_is c.b t.block_num && text_below c.i t.id);
  before = λ a b.
      key_below b.block_num a.block_num || (key_eq b.block_num a.block_num && text_below a.id b.id);
  cursor_of = λ t. ok (record { b = or_default t.block_num 0; i = t.id });
}

unfoldable pub list_trades : CursorText TradeCursor → TradesQuery → List Trade → Result (Page Trade)
list_trades texts q trades = list_page (trades_listing q) texts q.limit q.cursor trades

-- GET /orders/:txHash/:index
unfoldable pub find_order : String → String → List Order → Option Order
find_order tx_hash index orders =
    find (λ o. (o.out_point.tx_hash == tx_hash) && (o.out_point.index == index)) orders

-- GET /markets
unfoldable pub markets : List Order → List String
markets orders = distinct (map (λ o. o.xudt_type_hash) orders)

-- ===== src/Market/Walks.antt =====
-- The walks through the listings of backend/src/routes/market.ts.
use ckb_dex.Prelude.{
  ℕ, Bool, true, false, Option, some, none, ◌≡◌, arith, String, List, [], ◌∷◌, filter, length, ◌≤◌,
  ◌<◌, All, map, member, ◌==◌, refl, eq_iff, suc, ◌∙◌, ◌||◌, ap, ◌&&◌, is_some,
}
use ckb_dex.Prelude.Result.{ok}
use ckb_dex.Order.{Order, Trade}
use ckb_dex.Market.Listings.{
  OrderBookQuery, OrderBookCursor, past_in_book, book_before, past_price, book_cursor, descends,
  TradeCursor, key_is, order_book_listing, TradesQuery, key_above, trades_listing, price_before,
  key_eq, key_below, key_under, OrderListCursor, OrderQuery, StoredOrder, order_list_listing,
}
use ckb_dex.Market.Keyset.Sorted.{IsOrder, DistinctIds, All-map, All-filter}
use ckb_dex.Projection.Ids.{UniqueIds}
use ckb_dex.Market.Keyset.{insert_by, sort_by, CursorText, accepts_limit, walk_pages}
use ckb_dex.Market.Texts.{text_below}
use ckb_dex.Market.Keyset.Walk.{HasCursor, walk_from_start}
use ckb_dex.Market.Orders.{book_before-IsOrder, trade_before-IsOrder, created_before-IsOrder}
use ckb_dex.Projection.Spend.{or_default}
use ckb_dex.Market.Keyset.Cuts.{All-every}

length-filter : {A : Type 0} (p : A → Bool) (xs : List A) → length (filter p xs) ≤ length xs
length-filter p [] = omega arith
length-filter p (x ∷ xs) = ground (arith, length-filter p xs)

length-insert :
    {A : Type 0} (before : A → A → Bool) (a : A) (xs : List A)
    → length (insert_by before a xs) ≡ suc (length xs)
unfolding insert_by
length-insert before a [] = refl
length-insert before a (x ∷ xs) = ground (arith, length-insert before a xs)

length-sort :
    {A : Type 0} (before : A → A → Bool) (xs : List A) → length (sort_by before xs) ≡ length xs
unfolding sort_by
length-sort before [] = refl
length-sort before (x ∷ xs) =
    length-insert before x (sort_by before xs) ∙ ap suc (length-sort before xs)

rows_fit :
    {A : Type 0} (before : A → A → Bool) (p : A → Bool) (xs : List A) (fuel : ℕ)
    → length xs < fuel
    → length (sort_by before (filter p xs)) < fuel
rows_fit before p xs fuel h = ground (arith, length-sort before (filter p xs), length-filter p xs)

module _ {A : Type 0} (id_of : A → String) (before : A → A → Bool) (o : IsOrder id_of before) where
  apart_of :
      (a : A) (xs : List A)
      → member (id_of a) (map id_of xs) ≡ false
      → All (λ x. (id_of a == id_of x) ≡ false) xs
  apart_of a [] h = tt
  apart_of a (x ∷ xs) h = (
    ground (arith, eq_iff (id_of a) (id_of x), eq_iff (id_of x) (id_of a)),
    apart_of a xs (ground arith),
  )

  distinct_of : (xs : List A) → UniqueIds (map id_of xs) → DistinctIds id_of before o xs
  distinct_of [] u = tt
  distinct_of (x ∷ xs) u = (apart_of x xs u.0, distinct_of xs u.1)

-- A document with all the keys that the order book sorts by.
pub record HasSortKeys (o : Order) : Type 0 where
  pub price : ℕ
  pub block : ℕ
  pub index : ℕ
  pub price_lem : o.price_value ≡ some price
  pub block_lem : o.block_num ≡ some block
  pub index_lem : o.tx_idx ≡ some index

past_keys :
    (d : Bool) (p b t : ℕ) (p' b' t' : ℕ) (last : Bool)
    → (past_price d p (some p')
        || ((key_is p (some p') && key_above b (some b'))
            || ((key_is p (some p') && (key_is b (some b') && key_above t (some t')))
                || (key_is p (some p') && (key_is b (some b') && (key_is t (some t') && last))))))
      ≡ (price_before d (some p) (some p')
          || (key_eq (some p) (some p')
              && (key_below (some b) (some b')
                  || (key_eq (some b) (some b')
                      && (key_below (some t) (some t') || (key_eq (some t) (some t') && last))))))
past_keys true p b t p' b' t' last = ground arith
past_keys false p b t p' b' t' last = ground arith

cursor_keys : (o : Order) → HasSortKeys o → OrderBookCursor
cursor_keys o k = record { p = k.price; b = k.block; t = k.index; i = o.id }

past_lem :
    (d : Bool) (a b : Order) (k : HasSortKeys a) (m : HasSortKeys b)
    → past_in_book d (cursor_keys a k) b ≡ book_before d a b
unfolding cursor_keys
past_lem d a b k m =
    rw (k.price_lem, k.block_lem, k.index_lem, m.price_lem, m.block_lem, m.index_lem)
      (past_keys d k.price k.block k.index m.price m.block m.index (text_below a.id b.id))

book_cursor_lem : (o : Order) (k : HasSortKeys o) → book_cursor o ≡ ok (cursor_keys o k)
unfolding book_cursor cursor_keys
book_cursor_lem o k = rw (k.price_lem, book_cursor, k.block_lem, k.index_lem) refl

book_cursors :
    (d : Bool) (rows : List Order)
    → All HasSortKeys rows
    → (q : OrderBookQuery) → descends q.direction ≡ d
    → All (HasCursor (order_book_listing q) rows) rows
book_cursors d rows keyed q e =
    All-map HasSortKeys (HasCursor (order_book_listing q) rows) rows
      (λ a k. (
        cursor_keys a k,
        book_cursor_lem a k,
        All-map HasSortKeys
            (λ b.
              past_in_book (descends q.direction) (cursor_keys a k) b
              ≡ book_before (descends q.direction) a b)
            rows (λ b m. past_lem (descends q.direction) a b k m) keyed,
      ))
      keyed

-- A client that follows the cursors of the order book from the first page reads every wanted order
-- exactly once, by price and then by the place on the chain, and comes to an end: the walk returns
-- the sorted list of all wanted orders. It needs a limit that the schema accepts, orders of
-- different ids that all have their sort keys, and no change of the orders during the walk; one
-- page more than there are orders is enough.
pub order_book_pages :
    (texts : CursorText OrderBookCursor) (q : OrderBookQuery) (orders : List Order) (fuel : ℕ)
    → accepts_limit q.limit ≡ true
    → UniqueIds (map (λ o. o.id) orders)
    → All HasSortKeys orders
    → length orders < fuel
    → walk_pages (order_book_listing q) texts q.limit fuel none orders
      ≡ ok (
          sort_by
            (book_before (descends q.direction))
            (filter (order_book_listing q).wanted orders))
order_book_pages texts q orders fuel accepted unique keyed enough =
    let l = order_book_listing q in
    walk_from_start l texts q.limit (λ o. o.id) (book_before-IsOrder (descends q.direction)) orders
      (distinct_of (λ o. o.id) l.before (book_before-IsOrder (descends q.direction)) orders unique)
      (book_cursors (descends q.direction) (filter l.wanted orders)
        (All-filter HasSortKeys l.wanted orders keyed) q refl)
      fuel (ground arith) (rows_fit l.before l.wanted orders fuel enough)

past_block :
    (x y : Option ℕ) (last : Bool)
    → is_some x ≡ true
    → is_some y ≡ true
    → (key_under (or_default x 0) y || (key_is (or_default x 0) y && last))
      ≡ (key_below y x || (key_eq y x && last))
past_block none y last h k = ground arith
past_block (some m) none last h k = ground arith
past_block (some m) (some n) last h k = ground arith

-- A client that follows the cursors of the trades reads every trade that is not reverted, and of
-- the asked token, exactly once, the newest block first, and comes to an end. The trades have
-- different ids, all have their block, and do not change during the walk; the limit is one that the
-- schema accepts, and one page more than there are trades is enough.
pub trades_pages :
    (texts : CursorText TradeCursor) (q : TradesQuery) (trades : List Trade) (fuel : ℕ)
    → accepts_limit q.limit ≡ true
    → UniqueIds (map (λ t. t.id) trades)
    → All (λ t. is_some t.block_num ≡ true) trades
    → length trades < fuel
    → walk_pages (trades_listing q) texts q.limit fuel none trades
      ≡ ok (sort_by (trades_listing q).before (filter (trades_listing q).wanted trades))
trades_pages texts q trades fuel accepted unique keyed enough =
    let l = trades_listing q in
    let HasBlock : Trade → Type 0 = λ t. is_some t.block_num ≡ true in
    let rows = filter l.wanted trades in
    let blocks = All-filter HasBlock l.wanted trades keyed in
    let cursors =
      All-map HasBlock (HasCursor l rows) rows
        (λ a k. (
          record { b = or_default a.block_num 0; i = a.id },
          refl,
          All-map HasBlock
              (λ b. l.past (record { b = or_default a.block_num 0; i = a.id }) b ≡ l.before a b)
              rows (λ b m. past_block a.block_num b.block_num (text_below a.id b.id) k m) blocks,
        ))
        blocks in
    walk_from_start l texts q.limit (λ t. t.id) trade_before-IsOrder trades
      (distinct_of (λ t. t.id) l.before trade_before-IsOrder trades unique) cursors fuel
      (ground arith) (rows_fit l.before l.wanted trades fuel enough)

-- A client that follows the cursors of the list of orders reads every order that its query asks
-- for exactly once, the latest first, and comes to an end. The orders have different ids and do not
-- change during the walk; the limit is one that the schema accepts, and one page more than there
-- are orders is enough.
pub order_list_pages :
    (texts : CursorText OrderListCursor) (q : OrderQuery) (orders : List StoredOrder) (fuel : ℕ)
    → accepts_limit q.limit ≡ true
    → UniqueIds (map (λ o. o.order.id) orders)
    → length orders < fuel
    → walk_pages (order_list_listing q) texts q.limit fuel none orders
      ≡ ok (sort_by (order_list_listing q).before (filter (order_list_listing q).wanted orders))
order_list_pages texts q orders fuel accepted unique enough =
    let l = order_list_listing q in
    let rows = filter l.wanted orders in
    let cursors = All-every (HasCursor l rows) rows (λ a. (
      record { c = a.created_at; i = a.order.id },
      refl,
      All-every (λ b. l.past (record { c = a.created_at; i = a.order.id }) b ≡ l.before a b) rows
          (λ b. refl),
    )) in
    walk_from_start l texts q.limit (λ o. o.order.id) created_before-IsOrder orders
      (distinct_of (λ o. o.order.id) l.before created_before-IsOrder orders unique) cursors fuel
      (ground arith) (rows_fit l.before l.wanted orders fuel enough)

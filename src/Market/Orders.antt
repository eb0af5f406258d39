-- ===== src/Market/Orders.antt =====
-- The sort orders of the listings of backend/src/routes/market.ts.
use ckb_dex.Prelude.{
  ℕ, Bool, true, false, Option, some, none, ◌≡◌, arith, ◌||◌, ◌&&◌, refl, ◌∙◌, sym, ltb, eqb,
}
use ckb_dex.Market.Listings.{key_below, key_eq, price_before, StoredOrder, book_before}
use ckb_dex.Market.Keyset.Sorted.{IsOrder}
use ckb_dex.Order.{Order, Trade}
use ckb_dex.Market.Texts.{text_below, text_below_irrefl, text_below_trans, text_below_total}

-- One sort key before the others.
abbrev pub layer : Option ℕ → Option ℕ → Bool → Bool
layer x y rest = key_below x y || (key_eq x y && rest)

layer_irrefl : (x : Option ℕ) (r : Bool) → r ≡ false → layer x x r ≡ false
layer_irrefl none r h = ground arith
layer_irrefl (some n) r h = ground arith

layer_trans :
    (x y z : Option ℕ) (r s t : Bool)
    → (r ≡ true → s ≡ true → t ≡ true)
    → layer x y r ≡ true
    → layer y z s ≡ true
    → layer x z t ≡ true
layer_trans none none none r s t f h k = ground arith
layer_trans none none (some c) r s t f h k = ground arith
layer_trans none (some b) none r s t f h k = ground arith
layer_trans none (some b) (some c) r s t f h k = ground arith
layer_trans (some a) none z r s t f h k = ground arith
layer_trans (some a) (some b) none r s t f h k = ground arith
layer_trans (some a) (some b) (some c) r s t f h k = ground arith

layer_total :
    (x y : Option ℕ) (r s : Bool)
    → (r ≡ false → s ≡ true)
    → layer x y r ≡ false
    → layer y x s ≡ true
layer_total none none r s f h = ground arith
layer_total none (some b) r s f h = ground arith
layer_total (some a) none r s f h = ground arith
layer_total (some a) (some b) r s f h = ground arith

key_eq_sym : (x y : Option ℕ) → key_eq x y ≡ key_eq y x
key_eq_sym none none = refl
key_eq_sym none (some b) = refl
key_eq_sym (some a) none = refl
key_eq_sym (some a) (some b) = ground arith

-- The first sort key, in either direction.
abbrev price_layer : Bool → Option ℕ → Option ℕ → Bool → Bool
price_layer descending x y rest = price_before descending x y || (key_eq x y && rest)

descending_layer : (x y : Option ℕ) (r : Bool) → price_layer true x y r ≡ layer y x r
descending_layer x y r = ground (arith, key_eq_sym x y)

price_layer_irrefl : (d : Bool) (x : Option ℕ) (r : Bool) → r ≡ false → price_layer d x x r ≡ false
price_layer_irrefl true x r h = layer_irrefl x r h
price_layer_irrefl false x r h = layer_irrefl x r h

price_layer_trans :
    (d : Bool) (x y z : Option ℕ) (r s t : Bool)
    → (r ≡ true → s ≡ true → t ≡ true)
    → price_layer d x y r ≡ true
    → price_layer d y z s ≡ true
    → price_layer d x z t ≡ true
price_layer_trans false x y z r s t f h k = layer_trans x y z r s t f h k
price_layer_trans true x y z r s t f h k =
    descending_layer x z t
    ∙ layer_trans z y x s r t (λ b a. f a b) (sym (descending_layer y z s) ∙ k)
        (sym (descending_layer x y r) ∙ h)

price_layer_total :
    (d : Bool) (x y : Option ℕ) (r s : Bool)
    → (r ≡ false → s ≡ true)
    → price_layer d x y r ≡ false
    → price_layer d y x s ≡ true
price_layer_total false x y r s f h = layer_total x y r s f h
price_layer_total true x y r s f h =
    descending_layer y x s ∙ layer_total y x r s f (sym (descending_layer x y r) ∙ h)

pub book_before-IsOrder : (d : Bool) → IsOrder (λ (o : Order). o.id) (book_before d)
book_before-IsOrder d = record {
  irrefl = λ a.
      price_layer_irrefl d a.price_value _
        (layer_irrefl a.block_num _ (layer_irrefl a.tx_idx _ (text_below_irrefl a.id)));
  trans = λ a b c. price_layer_trans d a.price_value b.price_value c.price_value _ _ _ (
      layer_trans a.block_num b.block_num c.block_num _ _ _
        (layer_trans a.tx_idx b.tx_idx c.tx_idx _ _ _ (text_below_trans a.id b.id c.id)));
  total = λ a b other. price_layer_total d a.price_value b.price_value _ _ (
      layer_total a.block_num b.block_num _ _
        (layer_total a.tx_idx b.tx_idx _ _ (text_below_total a.id b.id other)));
}

pub trade_before-IsOrder :
    IsOrder
      (λ (t : Trade). t.id)
      (λ a b.
        key_below b.block_num a.block_num
        || (key_eq b.block_num a.block_num && text_below a.id b.id))
trade_before-IsOrder = record {
  irrefl = λ a. layer_irrefl a.block_num _ (text_below_irrefl a.id);
  trans = λ a b c h k.
      layer_trans c.block_num b.block_num a.block_num _ _ _
        (λ y x. text_below_trans a.id b.id c.id x y) k h;
  total = λ a b other. layer_total b.block_num a.block_num _ _ (text_below_total a.id b.id other);
}

pub created_before-IsOrder :
    IsOrder
      (λ (o : StoredOrder). o.order.id)
      (λ a b.
        ltb b.created_at a.created_at
        || (eqb b.created_at a.created_at && text_below a.order.id b.order.id))
created_before-IsOrder = record {
  irrefl = λ a. layer_irrefl (some a.created_at) _ (text_below_irrefl a.order.id);
  trans = λ a b c h k.
      layer_trans (some c.created_at) (some b.created_at) (some a.created_at) _ _ _
        (λ y x. text_below_trans a.order.id b.order.id c.order.id x y) k h;
  total = λ a b other.
      layer_total (some b.created_at) (some a.created_at) _ _
        (text_below_total a.order.id b.order.id other);
}

-- ===== src/Ui/Rounding.antt =====
-- What a draft of ui/src/utils/orders.js promises to the contract.
use mathlib.Core.Path.{subst}
use ckb_dex.Prelude.{
  ◌%◌, ap, ℕ, String, Option, some, none, ◌≡◌, ◌≤◌, ◌*◌, ◌/◌, ◌^◌, arith, eqb, ltb, inl, inr,
  Bool-cases, Option-cases, ◌<◌, ◌+◌,
}
use native.Mathlib.Nat.{div-mul-le_self, div-add-mod, mod-lt, one-le-pow}
use ckb_dex.Ui.Drafts.{
  Draft, DraftResult, Field, order_price, amount, Side, Token, drafted, rejected, check_total,
  check_units, build_order_draft, max_u64_value, parse_units, ckb_decimals,
}

-- The terms of a draft for a token with these decimals.
pub record IsSound (decimals : ℕ) (d : Draft) : Type 0 where
  pub price_positive : 1 ≤ d.price_per_token
  pub amount_positive : 1 ≤ d.token_amount
  pub total_positive : 1 ≤ d.total_price
  pub total_fits : d.total_price ≤ max_u64_value
  pub not_above : d.total_price * 10 ^ decimals ≤ d.price_per_token * d.token_amount
  pub not_below : d.price_per_token * d.token_amount < (d.total_price + 1) * 10 ^ decimals

below_next_lem : (n b q r : ℕ) → b * q + r ≡ n → r < b → n < (q + 1) * b
below_next_lem n b q r e h = omega arith

below_next : (n decimals : ℕ) → n < (n / 10 ^ decimals + 1) * 10 ^ decimals
below_next n decimals =
    below_next_lem n (10 ^ decimals) (n / 10 ^ decimals) (n % 10 ^ decimals)
      (div-add-mod n (10 ^ decimals)) (mod-lt n (one-le-pow decimals 10 (omega arith)))

draft_is_not_rejected : (d : Draft) (field : Field) → rejected field ≡ drafted d → ⊥
draft_is_not_rejected d field h = cc

draft_of : Draft → DraftResult → Draft
draft_of other (drafted d) = d
draft_of other (rejected field) = other

drafted-injective : (c d : Draft) → drafted c ≡ drafted d → c ≡ d
unfolding draft_of
drafted-injective c d h = ap (draft_of d) h

total-IsSound :
    (side : Side) (price units decimals : ℕ) (d : Draft)
    → 1 ≤ price
    → 1 ≤ units
    → check_total side price units decimals ≡ drafted d
    → IsSound decimals d
unfolding check_total
total-IsSound side price units decimals d p u h =
    let total = (price * units) / 10 ^ decimals in
    let made : Draft = record {
      side = side;
      price_per_token = price;
      token_amount = units;
      total_price = total;
    } in
    elim (Bool-cases (eqb total 0)) [
      | inl nothing ↦ absurd (draft_is_not_rejected d order_price (rw (nothing, check_total) at h))
      | inr positive ↦ elim (Bool-cases (ltb max_u64_value total)) [
        | inl large ↦
            absurd (draft_is_not_rejected d amount (rw (positive, check_total, large) at h))
        | inr fits ↦
            let same : made ≡ d =
              drafted-injective made d (rw (positive, check_total, fits) at h) in
            subst (λ (x : Draft). IsSound decimals x) same
              (record {
                price_positive = p;
                amount_positive = u;
                total_positive = ground arith;
                total_fits = ground arith;
                not_above = div-mul-le_self (price * units) (10 ^ decimals);
                not_below = below_next (price * units) decimals;
              })
      ]
    ]

units-IsSound :
    (side : Side) (price : ℕ) (units : Option ℕ) (decimals : ℕ) (d : Draft)
    → 1 ≤ price
    → check_units side price units decimals ≡ drafted d
    → IsSound decimals d
unfolding check_units
units-IsSound side price none decimals d p h = absurd (draft_is_not_rejected d amount h)
units-IsSound side price (some units) decimals d p h = elim (Bool-cases (eqb units 0)) [
  | inl nothing ↦ absurd (draft_is_not_rejected d amount (rw (nothing, check_units) at h))
  | inr positive ↦
      total-IsSound side price units decimals d p (ground arith) (rw (positive, check_units) at h)
]

-- The total of a draft that the form yields is the price per token times the amount, in whole tokens,
-- with the fraction of a shannon dropped: it charges no more than that, and less than one shannon
-- less. Price, amount and total are above zero, and the total fits 64 bits; that the amount fits the
-- 128 bits of the arguments is not checked by the form.
pub draft_total_exact :
    (fixed_point_from : String → ℕ → ℕ) (side : Side) (price_text amount_text : String)
    (token : Token) (d : Draft)
    → build_order_draft fixed_point_from side price_text amount_text (some token) ≡ drafted d
    → IsSound token.decimals d
unfolding build_order_draft
draft_total_exact fixed_point_from side price_text amount_text token d h =
    elim (Option-cases (parse_units fixed_point_from price_text ckb_decimals)) [
      | inl unread ↦
          absurd (draft_is_not_rejected d order_price (rw (unread, build_order_draft) at h))
      | inr (price, read) ↦ elim (Bool-cases (eqb price 0)) [
        | inl nothing ↦
            absurd
              (draft_is_not_rejected d order_price (rw (read, build_order_draft, nothing) at h))
        | inr positive ↦
            units-IsSound side price (parse_units fixed_point_from amount_text token.decimals)
              token.decimals d (ground arith) (rw (read, build_order_draft, positive) at h)
      ]
    ]

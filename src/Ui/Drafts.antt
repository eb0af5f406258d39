-- ===== src/Ui/Drafts.antt =====
-- ui/src/utils/orders.js: the drafts of orders, the check of the funds, and the statuses of rows.
-- The texts of the form are those that `trim` leaves; the reading of a decimal text is the client
-- library's `fixedPointFrom`, a parameter.
use Prim.Native.Char.{Char, code}
use ckb_dex.Prelude.{
  ℕ, suc, String, Bool, true, false, Option, some, none, if◌then◌else◌, not, ◌&&◌, ◌||◌, eqb, ltb,
  leb, ◌*◌, ◌/◌, ◌^◌,
}
use ckb_dex.Order.{OrderStatus}

abbrev pub ckb_decimals : ℕ
ckb_decimals = 8

-- MAX_U64
abbrev pub max_u64_value : ℕ
max_u64_value = 18446744073709551615

abbrev is_digit : Char → Bool
is_digit c = leb 48 (code c) && leb (code c) 57

is_digits : String → Bool
is_digits String.[] = true
is_digits (String.◌∷◌ c s) = is_digit c && is_digits s

text_size : String → ℕ
text_size String.[] = 0
text_size (String.◌∷◌ c s) = suc (text_size s)

abbrev before_dot : Char → Option (String × String) → Option (String × String)
before_dot c none = none
before_dot c (some (whole, frac)) = some (String.◌∷◌ c whole, frac)

-- The parts before and after the first dot.
split_dot : String → Option (String × String)
split_dot String.[] = none
split_dot (String.◌∷◌ c s) =
    let later = split_dot s in if eqb (code c) 46 then some (String.[], s) else before_dot c later

module _ (fixed_point_from : String → ℕ → ℕ) where
  -- `parseUnits`: DECIMAL_RE, and no more digits after the dot than there are decimals.
  unfoldable pub parse_units : String → ℕ → Option ℕ
  unfolding is_digits text_size split_dot
  parse_units s decimals = elim (split_dot s) [
    | none ↦
        if is_digits s && not (eqb (text_size s) 0)
        then some (fixed_point_from s decimals)
        else none
    | some (whole, frac) ↦
        if is_digits whole
          && (is_digits frac && (not (eqb (text_size whole) 0) || not (eqb (text_size frac) 0)))
        then if ltb decimals (text_size frac) then none else some (fixed_point_from s decimals)
        else none
  ]

pub data Side : Type 0 where
  long short : Side

pub record Token : Type 0 where
  pub decimals : ℕ

pub record Draft : Type 0 where
  pub side : Side
  pub price_per_token : ℕ
  pub token_amount : ℕ
  pub total_price : ℕ

-- The field of the form that an error is about.
pub data Field : Type 0 where
  no_field order_price amount : Field

pub data DraftResult : Type 0 where
  drafted : Draft → DraftResult
  rejected : Field → DraftResult

-- The checks of the total.
unfoldable pub check_total : Side → ℕ → ℕ → ℕ → DraftResult
check_total side price units decimals =
    let total = (price * units) / 10 ^ decimals in
    if eqb total 0
    then rejected order_price
    else if ltb max_u64_value total
    then rejected amount
    else drafted
        (record { side = side; price_per_token = price; token_amount = units; total_price = total })

unfoldable pub check_units : Side → ℕ → Option ℕ → ℕ → DraftResult
check_units side price none decimals = rejected amount
check_units side price (some units) decimals =
    if eqb units 0 then rejected amount else check_total side price units decimals

module _ (fixed_point_from : String → ℕ → ℕ) where
  unfoldable pub build_order_draft : Side → String → String → Option Token → DraftResult
  build_order_draft side order_price_text amount_text none = rejected no_field
  build_order_draft side order_price_text amount_text (some token) =
      elim (parse_units fixed_point_from order_price_text ckb_decimals) [
        | none ↦ rejected order_price
        | some price ↦
            if eqb price 0
            then rejected order_price
            else check_units side price (parse_units fixed_point_from amount_text token.decimals)
                token.decimals
      ]

-- `checkFunds`; a balance that is not known yet passes.
abbrev exceeds : ℕ → Option ℕ → Bool
exceeds n none = false
exceeds n (some balance) = ltb balance n

unfoldable pub check_funds : Draft → Option ℕ → Option ℕ → ℕ → Option Field
check_funds draft balance token_balance required_ckb = elim draft.side [
  | short ↦ if exceeds draft.token_amount token_balance then some amount else none
  | long ↦ if exceeds required_ckb balance then some amount else none
]

-- OPEN_STATUSES
abbrev pub is_open_status : OrderStatus → Bool
is_open_status OrderStatus.discovered = true
is_open_status OrderStatus.live = true
is_open_status OrderStatus.reserved = true
is_open_status OrderStatus.pending = true
is_open_status OrderStatus.settlement_submitted = true
is_open_status _ = false

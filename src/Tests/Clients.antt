-- ===== src/Tests/Clients.antt =====
-- The laws of the web client, at an order that it funds and at an order that was filled.
use ckb_dex.Prelude.{some, none, ◌≡◌, refl, [], ◌∷◌, String, List, Option, ℕ, if◌then◌else◌, ◌==◌}
use ckb_dex.Ui.Closed.{closed_for_good}
use ckb_dex.Ui.Stores.{
  ClosedOrders, closed_status, was_filled, closed_at, mark_closed, Closing, was_canceled,
}
use ckb_dex.Ui.Drafts.{
  Draft, build_order_draft, long, parse_units, check_units, check_total, drafted,
}
use ckb_dex.Ui.Rounding.{IsSound, draft_total_exact}

-- Price 5, a token cell of 61 and the reserve.
abbrev known : ClosedOrders
known = record { closed = ("0xb:0", was_filled) ∷ []; version = 1 }

abbrev reports : List (Option String × Closing)
reports = (some "0xb:0", was_canceled) ∷ (none, was_filled) ∷ (some "0xs:0", was_filled) ∷ []

known_lem : closed_status (some "0xb:0") known ≡ some was_filled
unfolding closed_status closed_at
known_lem = refl

closed_for_good_example : closed_status (some "0xb:0") (mark_closed reports known) ≡ some was_filled
closed_for_good_example = closed_for_good "0xb:0" was_filled reports known known_lem

-- A reader of the two texts of the form.
abbrev read_text : String → ℕ → ℕ
read_text text decimals = if text == "0.00000003" then 3 else 50

abbrev small_draft : Draft
small_draft = record { side = long; price_per_token = 3; token_amount = 50; total_price = 15 }

small_draft_lem :
    build_order_draft read_text long "0.00000003" "5.0" (some (record { decimals = 1 }))
    ≡ drafted small_draft
unfolding build_order_draft parse_units check_units check_total
small_draft_lem = refl

draft_total_exact_example : IsSound 1 small_draft
draft_total_exact_example =
    draft_total_exact read_text long "0.00000003" "5.0" (record { decimals = 1 }) small_draft
      small_draft_lem

-- ===== src/Matching.antt =====
-- backend/src/bot/index.ts: the order book's priority (`sort`) and the search for exact matches
-- (`findMatch`, `findMatches`). A group key, the text `type:amount:price` in the source, is kept
-- as its three parts, and the Map of groups as a list in its insertion order.
pub mod Priority
pub mod Groups
pub mod Sound
use Prim.Native.Nat.{Ordering, compare}
use mathlib.Core.List.{flat_map}
use ckb_dex.Prelude.{
  ℕ, String, Bool, true, false, not, ◌&&◌, Option, none, some, List, [], ◌∷◌, ◌++◌, find, member,
  eqb, ◌==◌, if◌then◌else◌,
}
use ckb_dex.Order.{Order, OrderDirection, ask, bid, direction_eq}
use ckb_dex.Health.{MatchHealth, is_order_quarantined, is_pair_blocked}

-- The first comparison that decides.
abbrev pub or_else : Ordering → Ordering → Ordering
or_else Ordering.eq next = next
or_else Ordering.lt next = Ordering.lt
or_else Ordering.gt next = Ordering.gt

-- Prices ascend among asks and descend among bids.
unfoldable pub compare_prices : OrderDirection → ℕ → ℕ → Ordering
compare_prices ask a b = compare a b
compare_prices bid a b = compare b a

-- The comparator that `sort` passes to Array.prototype.sort: -1, 0 and 1 are lt, eq and gt.
unfoldable pub compare_orders : Order → Order → Ordering
compare_orders a b =
    if direction_eq a.direction b.direction
    then or_else (compare_prices a.direction a.price_per_token b.price_per_token)
        (or_else (compare a.block_number b.block_number) (compare a.tx_index b.tx_index))
    else (if direction_eq a.direction ask then Ordering.lt else Ordering.gt)

abbrev pub is_gt : Ordering → Bool
is_gt Ordering.gt = true
is_gt _ = false

-- Array.prototype.sort is stable: an order goes before those that compare equal to it and that
-- stood behind it.
unfoldable pub insert_sorted : Order → List Order → List Order
insert_sorted x [] = x ∷ []
insert_sorted x (y ∷ ys) = if is_gt (compare_orders x y) then y ∷ insert_sorted x ys else x ∷ y ∷ ys

unfoldable pub sort : List Order → List Order
unfolding insert_sorted
sort [] = []
sort (x ∷ xs) = insert_sorted x (sort xs)

pub record GroupKey : Type 0 where
  pub xudt_type_hash : String
  pub remaining_amount : ℕ
  pub price_per_token : ℕ

abbrev pub match_group_key : Order → GroupKey
match_group_key o = record {
  xudt_type_hash = o.xudt_type_hash;
  remaining_amount = o.remaining_amount;
  price_per_token = o.price_per_token;
}

unfoldable pub same_key : GroupKey → GroupKey → Bool
same_key a b =
    (a.xudt_type_hash == b.xudt_type_hash)
    && (eqb a.remaining_amount b.remaining_amount && eqb a.price_per_token b.price_per_token)

pub record Group : Type 0 where
  pub key : GroupKey
  pub buys : List Order
  pub sells : List Order

-- `(order.direction === "BID" ? bucket.buys : bucket.sells).push(order)`
push_by : OrderDirection → Order → Group → Group
push_by bid o g = record g { buys = g.buys ++ o ∷ [] }
push_by ask o g = record g { sells = g.sells ++ o ∷ [] }

abbrev empty_group : GroupKey → Group
empty_group key = record { key = key; buys = []; sells = [] }

unfoldable pub add_to_group : Order → List Group → List Group
unfolding push_by
add_to_group o [] = push_by o.direction o (empty_group (match_group_key o)) ∷ []
add_to_group o (g ∷ gs) =
    if same_key g.key (match_group_key o)
    then push_by o.direction o g ∷ gs
    else g ∷ add_to_group o gs

-- The first loop of `findMatches`; asking for a quarantine may drop an expired entry.
unfoldable pub collect : MatchHealth → ℕ → List Order → List Group → MatchHealth × List Group
collect h now [] groups = (h, groups)
collect h now (o ∷ os) groups =
    let (h', quarantined) = is_order_quarantined h o.id now in
    collect h' now os (if quarantined then groups else add_to_group o groups)

pub record Pair : Type 0 where
  pub buy : Order
  pub sell : Order

abbrev pub is_candidate : MatchHealth → ℕ → List String → Order → Order → Bool
is_candidate h now taken buy sell =
    not (member sell.id taken) && not (is_pair_blocked h buy.id sell.id now)

-- The loop over the buys of a group, with the ids of the sells that are taken.
unfoldable pub pair_up : MatchHealth → ℕ → List Order → List String → List Order → List Pair
pair_up h now sells taken [] = []
pair_up h now sells taken (buy ∷ buys) = elim (find (is_candidate h now taken buy) sells) [
  | none ↦ pair_up h now sells taken buys
  | some sell ↦ record { buy = buy; sell = sell } ∷ pair_up h now sells (sell.id ∷ taken) buys
]

pair_groups : MatchHealth → ℕ → List Group → List Pair
pair_groups h now [] = []
pair_groups h now (g ∷ gs) = pair_up h now g.sells [] g.buys ++ pair_groups h now gs

unfoldable pub find_matches : MatchHealth → List Order → ℕ → MatchHealth × List Pair
unfolding pair_groups
find_matches h orders now =
    let (h', groups) = collect h now (sort orders) [] in (h', pair_groups h' now groups)

-- `findMatch`: no quarantine and no backoff
add_all : List Order → List Group → List Group
add_all [] groups = groups
add_all (o ∷ os) groups = add_all os (add_to_group o groups)

-- The heads of the two lists of a group, where both have one.
head_pair : List Order → List Order → Option Pair
head_pair (buy ∷ _) (sell ∷ _) = some (record { buy = buy; sell = sell })
head_pair _ _ = none

first_pair : List Group → Option Pair
first_pair [] = none
first_pair (g ∷ gs) =
    let later = first_pair gs in elim (head_pair g.buys g.sells) [ none ↦ later | some p ↦ some p ]

unfoldable pub find_match : List Order → Option Pair
unfolding add_all head_pair first_pair
find_match orders = first_pair (add_all (sort orders) [])

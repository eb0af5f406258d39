-- ===== src/Ui/Closed.antt =====
-- The store of closed orders of ui/src/services/closedOrders.js.
use ckb_dex.Prelude.{
  String, ◌≡◌, arith, some, none, List, [], ◌∷◌, ◌++◌, Option, Option-cases, inl, inr, Bool-cases,
}
use ckb_dex.Ui.Stores.{Closing, ClosedOrders, closed_at, add_closed, mark_closed, closed_status}

closed_at-append :
    (key : String) (status : Closing) (old : List (String × Closing)) (entry : String × Closing)
    → closed_at key old ≡ some status
    → closed_at key (old ++ entry ∷ []) ≡ some status
unfolding closed_at
closed_at-append key status [] entry h = cc
closed_at-append key status ((k, known) ∷ rest) entry h =
    ground (arith, closed_at-append key status rest entry)

add_closed_keeps :
    (key : String) (status : Closing) (entries : List (Option String × Closing))
    (old : List (String × Closing))
    → closed_at key old ≡ some status
    → closed_at key (add_closed entries old).1 ≡ some status
unfolding add_closed
add_closed_keeps key status [] old h = h
add_closed_keeps key status ((none, s) ∷ rest) old h = add_closed_keeps key status rest old h
add_closed_keeps key status ((some k, s) ∷ rest) old h = elim (Option-cases (closed_at k old)) [
  | inl new ↦
      rw (new, add_closed)
        (add_closed_keeps key status rest (old ++ (k, s) ∷ [])
          (closed_at-append key status old (k, s) h))
  | inr (known, e) ↦ rw (e, add_closed) (add_closed_keeps key status rest old h)
]

-- The first status of a closed order stands: whatever is recorded later, in any order and by any
-- channel, does not change it and does not reopen the order.
pub closed_for_good :
    (key : String) (status : Closing) (entries : List (Option String × Closing)) (s : ClosedOrders)
    → closed_status (some key) s ≡ some status
    → closed_status (some key) (mark_closed entries s) ≡ some status
unfolding closed_status mark_closed
closed_for_good key status entries s h =
    let kept = add_closed_keeps key status entries s.closed h in
    elim (Bool-cases (add_closed entries s.closed).0) [
      | inl grew ↦ rw (grew, mark_closed) kept
      | inr same ↦ rw (same, mark_closed) h
    ]

-- ===== src/Market/Keyset/Walk.antt =====
-- A walk through the pages of a listing of backend/src/routes/market.ts.
use ckb_dex.Prelude.{
  ap, ℕ, List, none, filter, take, length, ◌+◌, ◌≤◌, ◌≡◌, All, arith, ◌<◌, String, some, ◌∷◌, suc,
  ◌++◌, Option, ltb, ◌&&◌, inl, true, inr, [], refl, ◌∙◌, sym, zero, Bool-cases, ltb→lt,
}
use ckb_dex.Prelude.Result.{ok}
use ckb_dex.Market.Keyset.{
  Listing, CursorText, page_of, with_next, last_of, sort_by, list_page, rows_of, is_past,
  decode_cursor, walk_pages,
}
use ckb_dex.Market.Keyset.Cuts.{
  take_short, DistinctIds-filter, take-take, length-take_more, filter_suffix, filter_and,
  filter_cong, cut_at, append_assoc, All-mid, length_append_cons, All-every,
}
use ckb_dex.Market.Keyset.Sorted.{IsOrder, DistinctIds, sort-IsSorted, filter-sort_by, All-sort}

-- The row has a cursor, and the rows past the cursor are those after the row.
abbrev pub HasCursor : {A C : Type 0} → Listing A C → List A → A → Type 0
HasCursor {A = A} {C = C} l docs a =
    (c : C) × (l.cursor_of a ≡ ok c) × All (λ b. l.past c b ≡ l.before a b) docs

-- Each wanted row has a cursor.
abbrev pub HasCursors : {A C : Type 0} → Listing A C → List A → Type 0
HasCursors l docs = All (HasCursor l (filter l.wanted docs)) (filter l.wanted docs)

module _ {A C : Type 0} (l : Listing A C) (texts : CursorText C) (limit : ℕ) where
  page_last :
      (rows : List A)
      → length rows ≤ limit
      → page_of l texts limit (take (limit + 1) rows)
        ≡ ok (record { items = rows; next_cursor = none })
  unfolding page_of with_next
  page_last rows h =
      rw (take_short (limit + 1) rows (omega arith)) (rw (take_short limit rows h) (ground arith))

  page_more :
      (rows page : List A) (a : A) (c : C)
      → limit < length rows
      → take limit rows ≡ page
      → last_of page ≡ some a
      → l.cursor_of a ≡ ok c
      → page_of l texts limit (take (limit + 1) rows)
        ≡ ok (record { items = page; next_cursor = some (texts.encode c) })
  unfolding page_of with_next
  page_more rows page a c more taken last read =
      let succ : limit + 1 ≡ suc limit = omega arith in
      let counted : ltb limit (suc limit) ≡ true = ground arith in
      let cut_page : take limit (take (suc limit) rows) ≡ page = take-take limit rows ∙ taken in
      let cut_page' : take limit (take (limit + 1) rows) ≡ page = rw succ cut_page in
      rw (succ, page_of, length-take_more limit rows more, counted, cut_page, last, with_next, read)
        (ap (λ (p : List A). ok (record { items = p; next_cursor = some (texts.encode c) }))
          cut_page')

  -- What the client reads from a cursor that leaves the rows `rest`.
  module _ (id_of : A → String) (o : IsOrder id_of l.before) (docs : List A)
      (distinct : DistinctIds id_of l.before o docs) (readable : HasCursors l docs) where
    rows : List A
    rows = sort_by l.before (filter l.wanted docs)

    unread : Option C → List A
    unread c = sort_by l.before (filter (λ b. l.wanted b && is_past l texts limit c b) docs)

    rows_past :
        (front : List A) (a : A) (rest : List A) (c : C)
        → rows ≡ front ++ a ∷ rest
        → All (λ b. l.past c b ≡ l.before a b) (filter l.wanted docs)
        → unread (some c) ≡ rest
    unfolding rows unread
    rows_past front a rest c split past =
        let wanted = filter l.wanted docs in
        let distinct' = DistinctIds-filter id_of l.before o l.wanted docs distinct in
        let sorted = sort-IsSorted id_of l.before o wanted distinct' in
        let suffix = filter_suffix id_of l.before o front a rest (rw split at sorted) in
        ap (sort_by l.before) (filter_and l.wanted (l.past c) docs)
        ∙ ap (sort_by l.before) (filter_cong (l.past c) (l.before a) wanted past)
        ∙ sym (filter-sort_by id_of l.before o (l.before a) wanted distinct')
        ∙ ap (filter (l.before a)) split
        ∙ suffix

    list_lem :
        (cursor : Option String) (c : Option C)
        → decode_cursor texts cursor ≡ ok c
        → list_page l texts limit cursor docs ≡ page_of l texts limit (take (limit + 1) (unread c))
    unfolding list_page rows_of unread
    list_lem cursor c read = rw (read, list_page) refl

    cursor_lem :
        (front : List A) (a : A) (rest : List A)
        → rows ≡ front ++ a ∷ rest
        → HasCursor l (filter l.wanted docs) a
    unfolding rows
    cursor_lem front a rest split =
        let P = HasCursor l (filter l.wanted docs) in
        let all : All P (sort_by l.before (filter l.wanted docs)) =
          All-sort id_of l.before o P (filter l.wanted docs) readable in
        All-mid P front a rest (rw split at all)

    decode-encode : (c : C) → decode_cursor texts (some (texts.encode c)) ≡ ok (some c)
    unfolding decode_cursor
    decode-encode c = rw (texts.decode_lem c, decode_cursor) refl

    -- The rows from a row to the last.
    walk_lem :
        (fuel : ℕ) (front rest : List A) (cursor : Option String) (c : Option C)
        → 1 ≤ limit
        → rows ≡ front ++ rest
        → unread c ≡ rest
        → decode_cursor texts cursor ≡ ok c
        → length rest < fuel
        → walk_pages l texts limit fuel cursor docs ≡ ok rest
    unfolding walk_pages
    walk_lem zero front rest cursor c one split left read enough = ground arith
    walk_lem (suc fuel) front rest cursor c one split left read enough =
        let listed =
          list_lem cursor c read ∙ ap (λ r. page_of l texts limit (take (limit + 1) r)) left in
        elim (Bool-cases (ltb limit (length rest))) [
          | inr short ↦ rw (listed, page_last rest (ground arith)) refl
          | inl long ↦
              let (front', a, rest', taken, whole, last) =
                cut_at limit rest one (ltb→lt _ _ long) in
              let split : rows ≡ (front ++ front') ++ a ∷ rest' =
                split ∙ ap (λ r. front ++ r) whole ∙ sym (append_assoc front front' (a ∷ rest')) in
              let (c', cursor', past) = cursor_lem (front ++ front') a rest' split in
              let page =
                page_more rest (front' ++ a ∷ []) a c' (ltb→lt _ _ long) taken last cursor' in
              let joined = append_assoc front' (a ∷ []) rest' in
              let split' : rows ≡ ((front ++ front') ++ a ∷ []) ++ rest' =
                split ∙ sym (append_assoc (front ++ front') (a ∷ []) rest') in
              let shorter : length rest' < fuel =
                ground (arith, length_append_cons front' a rest', ap length whole) in
              let next =
                walk_lem fuel ((front ++ front') ++ a ∷ []) rest' (some (texts.encode c')) (some c')
                  one split' (rows_past (front ++ front') a rest' c' split past) (decode-encode c')
                  shorter in
              rw (listed, page, next) (ap ok (joined ∙ sym whole))
        ]

    unread_all : unread none ≡ rows
    unfolding unread rows
    unread_all = ap (sort_by l.before) (
        filter_cong (λ b. l.wanted b && true) l.wanted docs
          (All-every (λ b. (l.wanted b && true) ≡ l.wanted b) docs (λ b. ground arith)))

    decode_none : decode_cursor texts none ≡ ok none
    unfolding decode_cursor
    decode_none = refl

    pub walk_from_start :
        (fuel : ℕ)
        → 1 ≤ limit
        → length (sort_by l.before (filter l.wanted docs)) < fuel
        → walk_pages l texts limit fuel none docs ≡ ok (sort_by l.before (filter l.wanted docs))
    unfolding rows
    walk_from_start fuel one enough =
        walk_lem fuel [] rows none none one refl unread_all decode_none enough

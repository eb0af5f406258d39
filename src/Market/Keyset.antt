-- ===== src/Market/Keyset.antt =====
-- Keyset pages over a sorted collection: what `find(filter).sort(…).limit(limit + 1)` answers, how
-- the handlers of backend/src/routes/market.ts cut it into a page and a cursor, and
-- `encodeCursor`, `decodeCursor` and `limitSchema` of backend/src/utils/pagination.ts.
pub mod Sorted
pub mod Cuts
pub mod Walk
use ckb_dex.Prelude.{
  ℕ, zero, suc, Bool, true, List, [], ◌∷◌, ◌++◌, Option, some, none, if◌then◌else◌, filter, take,
  length, ◌+◌, ltb, leb, ◌&&◌, String, ◌≡◌,
}
use ckb_dex.Prelude.Result.{Result, ok, err, ◌>>=◌, app_error, other_error}

-- MAX_PAGE_SIZE
abbrev pub max_page_size : ℕ
max_page_size = 200

-- The limits that `limitSchema` accepts.
abbrev pub accepts_limit : ℕ → Bool
accepts_limit limit = leb 1 limit && leb limit max_page_size

-- JSON and base64url, with the shape that a cursor must have. A cursor of the service reads back.
pub record CursorText (C : Type 0) : Type 0 where
  pub encode : C → String
  pub decode : String → Option C
  pub decode_lem : (c : C) → decode (encode c) ≡ some c

unfoldable pub decode_cursor : {C : Type 0} → CursorText C → Option String → Result (Option C)
decode_cursor texts none = ok none
decode_cursor texts (some text) = elim (texts.decode text) [
  | none ↦ err (app_error 400 "Invalid cursor" none)
  | some c ↦ ok (some c)
]

module _ {A : Type 0} (before : A → A → Bool) where
  unfoldable pub insert_by : A → List A → List A
  insert_by a [] = a ∷ []
  insert_by a (b ∷ bs) = if before a b then a ∷ b ∷ bs else b ∷ insert_by a bs

  -- `.sort(…)`
  unfoldable pub sort_by : List A → List A
  unfolding insert_by
  sort_by [] = []
  sort_by (a ∷ as') = insert_by a (sort_by as')

-- `page[page.length - 1]`
unfoldable pub last_of : {A : Type 0} → List A → Option A
last_of [] = none
last_of (a ∷ []) = some a
last_of (a ∷ b ∷ bs) = last_of (b ∷ bs)

-- What a handler asks for: its filter, the rows past a cursor, its sort keys and the cursor of a
-- row.
pub record Listing (A C : Type 0) : Type 0 where
  pub wanted : A → Bool
  pub past : C → A → Bool
  pub before : A → A → Bool
  pub cursor_of : A → Result C

pub record Page (A : Type 0) : Type 0 where
  pub items : List A
  pub next_cursor : Option String

module _ {A C : Type 0} (l : Listing A C) (texts : CursorText C) (limit : ℕ) where
  abbrev pub is_past : Option C → A → Bool
  is_past none a = true
  is_past (some c) a = l.past c a

  -- The query, with one row more than the page.
  unfoldable pub rows_of : Option C → List A → List A
  rows_of c docs =
      take (limit + 1) (sort_by l.before (filter (λ a. l.wanted a && is_past c a) docs))

  -- A page whose cursor, if there is one, is of its last row.
  unfoldable pub with_next : List A → Option A → Result (Page A)
  with_next page none = ok (record { items = page; next_cursor = none })
  with_next page (some last) = do
    c ← l.cursor_of last
    ok (record { items = page; next_cursor = some (texts.encode c) })

  unfoldable pub page_of : List A → Result (Page A)
  page_of rows =
      let page = take limit rows in
      with_next page (if ltb limit (length rows) then last_of page else none)

  unfoldable pub list_page : Option String → List A → Result (Page A)
  list_page cursor docs = do c ← decode_cursor texts cursor; page_of (rows_of c docs)

  -- A client that follows the cursors from page to page.
  unfoldable pub walk_pages : ℕ → Option String → List A → Result (List A)
  walk_pages zero cursor docs = err (other_error "out of pages")
  walk_pages (suc fuel) cursor docs = do
    page ← list_page cursor docs
    elim page.next_cursor [
      | none ↦ ok page.items
      | some next ↦ do rest ← walk_pages fuel (some next) docs; ok (page.items ++ rest)
    ]

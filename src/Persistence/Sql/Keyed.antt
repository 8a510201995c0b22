-- ===== src/Persistence/Sql/Keyed.antt =====
-- The row with a key in a table's rows, and how updates and inserts change it.
use swr_ddd.Common.{
  Bool, false, not, Option, none, some, List, [], ◌∷◌, ◌++◌, ◌==◌, if◌then◌else◌, ◌≡◌, refl, arith,
  keep, length, is_some,
}
use swr_ddd.Common.Text.{Text, text_eq, text_eq_iff}
use swr_ddd.Persistence.Sql.{any, first, update_rows}

module _ {Row : Type 0} (key : Row → Text) where
  abbrev pub has_key : Text → Row → Bool
  has_key id row = text_eq (key row) id

  -- the row with the key
  abbrev pub find : Text → List Row → Option Row
  find id rows = first (keep (has_key id) rows)

  abbrev pub update_found : (Row → Row) → Option Row → Option Row
  update_found f none = none
  update_found f (some row) = some (f row)

  pub find-update :
      (id : Text) (f : Row → Row) (rows : List Row)
      → ((row : Row) → key (f row) ≡ key row)
      → find id (update_rows (has_key id) f rows) ≡ update_found f (find id rows)
  find-update id f [] same = refl
  find-update id f (row ∷ rows) same = ground (arith, find-update id f rows same, same row)

  pub find-update_other :
      (other id : Text) (f : Row → Row) (rows : List Row)
      → ((row : Row) → key (f row) ≡ key row)
      → text_eq id other ≡ false
      → find other (update_rows (has_key id) f rows) ≡ find other rows
  find-update_other other id f [] same ne = refl
  find-update_other other id f (row ∷ rows) same ne = ground (
    arith,
    find-update_other other id f rows same ne,
    same row,
    text_eq_iff (key row) id,
    text_eq_iff (key row) other,
    text_eq_iff id other,
  )

  pub count_none :
      (id : Text) (rows : List Row)
      → (length (keep (has_key id) rows) == 0) ≡ not (is_some (find id rows))
  count_none id [] = refl
  count_none id (row ∷ rows) = ground (arith, count_none id rows)

  find-append :
      (id : Text) (rows : List Row) (row : Row)
      → find id (rows ++ row ∷ []) ≡ (
          if is_some (find id rows)
          then find id rows
          else if has_key id row
          then some row
          else none)
  find-append id [] row = ground arith
  find-append id (r ∷ rows) row = ground (arith, find-append id rows row)

  pub find-id : (id : Text) (rows : List Row) (row : Row) → find id rows ≡ some row → key row ≡ id
  find-id id [] row e = absurd (ground arith)
  find-id id (r ∷ rows) row e = ground (arith, find-id id rows row, text_eq_iff (key r) id)

  pub append-mine :
      (id : Text) (rows : List Row) (row : Row)
      → key row ≡ id
      → find id rows ≡ none
      → find id (rows ++ row ∷ []) ≡ some row
  append-mine id rows row e missing =
      ground (arith, find-append id rows row, text_eq_iff (key row) id)

  pub append-other :
      (id other : Text) (rows : List Row) (row : Row)
      → key row ≡ id
      → text_eq id other ≡ false
      → find other (rows ++ row ∷ []) ≡ find other rows
  append-other id other rows row e ne =
      ground (arith, find-append other rows row, text_eq_iff (key row) other, text_eq_iff id other)

  pub any-find : (id : Text) (rows : List Row) → any (has_key id) rows ≡ is_some (find id rows)
  any-find id [] = refl
  any-find id (r ∷ rows) = ground (arith, any-find id rows)

-- ===== src/Persistence/Sql.antt =====
-- A table behind SQLAlchemy's `select`, `update` and `insert`. The database is a parameter; the laws
-- say what those three statements do.
pub mod Keyed
use swr_ddd.Common.{
  ℕ, zero, suc, Bool, true, false, ◌&&◌, ◌||◌, Option, none, some, List, [], ◌∷◌, ◌++◌, ◌==◌,
  if◌then◌else◌, ◌≡◌, refl, arith, keep, length, is_some,
}

module _ {Row : Type 0} where
  -- a row of the list passes the test
  abbrev pub any : (Row → Bool) → List Row → Bool
  any p [] = false
  any p (r ∷ rs) = p r || any p rs

  -- `.first()`
  abbrev pub first : List Row → Option Row
  first [] = none
  first (r ∷ rs) = some r

  abbrev pub update_rows : (Row → Bool) → (Row → Row) → List Row → List Row
  update_rows p f [] = []
  update_rows p f (r ∷ rs) = (if p r then f r else r) ∷ update_rows p f rs

pub record Table (Row : Type 0) : Type 1 where
  pub State : Type 0
  pub select : (Row → Bool) → State → List Row
  -- the number of rows that matched, and the table
  pub update : (Row → Bool) → (Row → Row) → State → ℕ × State
  -- `none` where it raises `IntegrityError`
  pub insert : Row → State → Option State
  -- the rows, in the order in which the table is scanned
  pub rows : State → List Row

abbrev pub Inserted : {Row : Type 0} (T : Table Row) → List Row → Option T.State → Type 0
Inserted T rows none = Unit
Inserted T rows (some s) = T.rows s ≡ rows

-- `same_key` is the primary key. An insert may also fail on another constraint of the table.
pub record IsTable (Row : Type 0) (T : Table Row) (same_key : Row → Row → Bool) : Type 0 where
  pub select_rows : (p : Row → Bool) (s : T.State) → T.select p s ≡ keep p (T.rows s)
  pub update_rows_of :
      (p : Row → Bool) (f : Row → Row) (s : T.State)
      → T.rows (T.update p f s).1 ≡ update_rows p f (T.rows s)
  pub update_count :
      (p : Row → Bool) (f : Row → Row) (s : T.State)
      → (T.update p f s).0 ≡ length (keep p (T.rows s))
  pub insert_conflict :
      (r : Row) (s : T.State) → any (same_key r) (T.rows s) ≡ true → T.insert r s ≡ none
  pub insert_rows : (r : Row) (s : T.State) → Inserted T (T.rows s ++ r ∷ []) (T.insert r s)

-- ===== src/Persistence/Memory.antt =====
-- A table in memory: a list of rows, whose primary key an insert checks.
use swr_ddd.Common.{Bool, none, some, List, [], ◌∷◌, ◌++◌, if◌then◌else◌, refl, arith, keep, length}
use swr_ddd.Persistence.Sql.{Table, IsTable, any, update_rows, Inserted}

module _ {Row : Type 0} (same_key : Row → Row → Bool) where
  abbrev pub memory_table : Table Row
  memory_table = record {
    State = List Row;
    select = keep;
    update = λ p f s. (length (keep p s), update_rows p f s);
    insert = λ r s. if any (same_key r) s then none else some (s ++ r ∷ []);
    rows = λ s. s;
  }

  inserts : (r : Row) (s : List Row) → Inserted memory_table (s ++ r ∷ []) (memory_table.insert r s)
  inserts r s = ground arith

  pub memory_table-IsTable : IsTable Row memory_table same_key
  memory_table-IsTable = record {
    select_rows = λ p s. refl;
    update_rows_of = λ p f s. refl;
    update_count = λ p f s. refl;
    insert_conflict = λ r s h. ground arith;
    insert_rows = inserts;
  }

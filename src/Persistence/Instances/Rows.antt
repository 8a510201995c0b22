-- ===== src/Persistence/Instances/Rows.antt =====
-- The row of a runtime in the table, and how updates and inserts change it.
use swr_ddd.Common.{
  Bool, true, none, some, returned, raised, ◌>>=◌, refl, Option, List, ◌≡◌, ap, Outcome, did_return,
  Yields,
}
use swr_ddd.Common.Text.{Text}
use swr_ddd.Persistence.Wire.{Datetime, StoreError, from_wire_ts, optional_from_wire}
use swr_ddd.Persistence.Sql.{Table, IsTable, first}
use swr_ddd.Persistence.Instances.{
  WorkerInstanceRow, WorkerInstanceRecord, has_runtime_id, record_of_first, record_of_row,
  get_by_runtime_id,
}
use swr_ddd.Persistence.Sql.Keyed.{find}

-- the primary key
abbrev pub runtime_id_of : WorkerInstanceRow → Text
runtime_id_of row = row.runtime_id

abbrev pub same_runtime_id : WorkerInstanceRow → WorkerInstanceRow → Bool
same_runtime_id a b = has_runtime_id a.runtime_id b

module _ (d : Datetime) where
  -- the record of the columns, once the times were read
  abbrev build :
      WorkerInstanceRow
      → Outcome StoreError d.Moment
      → Outcome StoreError d.Moment
      → Outcome StoreError (Option d.Moment)
      → Outcome StoreError (WorkerInstanceRecord d)
  build row occurred observed last = do
    o ← occurred
    p ← observed
    l ← last
    returned (record {
      runtime_id = row.runtime_id;
      columns = row.columns;
      occurred_at = o;
      observed_at = p;
      last_heartbeat_at = l;
    })

  module _ (row : WorkerInstanceRow) (former : WorkerInstanceRecord d) where
    heartbeat_of :
        (occurred observed : Outcome StoreError d.Moment)
        (last : Outcome StoreError (Option d.Moment))
        → build row occurred observed last ≡ returned former
        → last ≡ returned former.last_heartbeat_at
    heartbeat_of (raised e) observed last h = cc
    heartbeat_of (returned o) (raised e) last h = cc
    heartbeat_of (returned o) (returned p) (raised e) h = cc
    heartbeat_of (returned o) (returned p) (returned l) h = cc

    -- A row that was read has the heartbeat that was read.
    pub heartbeat_read :
        record_of_row d row ≡ returned former
        → optional_from_wire d row.last_heartbeat_at ≡ returned former.last_heartbeat_at
    heartbeat_read h =
        heartbeat_of (from_wire_ts d row.occurred_at) (from_wire_ts d row.observed_at)
          (optional_from_wire d row.last_heartbeat_at) h

    retimed :
        (occurred observed : Outcome StoreError d.Moment)
        (last : Outcome StoreError (Option d.Moment)) (p' : d.Moment) (l' : Option d.Moment)
        → build row occurred observed last ≡ returned former
        → build row occurred (returned p') (returned l')
          ≡ returned (record former { observed_at = p'; last_heartbeat_at = l' })
    retimed (raised e) observed last p' l' h = cc
    retimed (returned o) (raised e) last p' l' h = cc
    retimed (returned o) (returned p) (raised e) p' l' h = cc
    retimed (returned o) (returned p) (returned l) p' l' h =
        let f = λ (x : Outcome StoreError (WorkerInstanceRecord d)).
          x >>= λ b. returned (record b { observed_at = p'; last_heartbeat_at = l' }) in
        ap f h

    -- A row that was read, and whose observation and heartbeat were then replaced, is read as the
    -- record with the two replaced.
    pub retimed_read :
        (observed heartbeat : Text) (p' : d.Moment) (l' : Option d.Moment)
        → record_of_row d row ≡ returned former
        → from_wire_ts d observed ≡ returned p'
        → optional_from_wire d (some heartbeat) ≡ returned l'
        → record_of_row d
            (record row { observed_at = observed; last_heartbeat_at = some heartbeat })
          ≡ returned (record former { observed_at = p'; last_heartbeat_at = l' })
    retimed_read observed heartbeat p' l' h hp hl =
        rw (hp, hl)
          (retimed (from_wire_ts d row.occurred_at) (from_wire_ts d row.observed_at)
            (optional_from_wire d row.last_heartbeat_at) p' l' h)

  -- what was read of a row that may be there
  abbrev pub IsReadOf : Option WorkerInstanceRow → Option (WorkerInstanceRecord d) → Type 0
  IsReadOf none former = former ≡ none
  IsReadOf (some row) former =
      (r : WorkerInstanceRecord d) × ((record_of_row d row ≡ returned r) × (former ≡ some r))

  some_read :
      (x : Outcome StoreError (WorkerInstanceRecord d)) (former : Option (WorkerInstanceRecord d))
      → (x >>= λ b. returned (some b)) ≡ returned former
      → (r : WorkerInstanceRecord d) × ((x ≡ returned r) × (former ≡ some r))
  some_read (raised e) former h = cc
  some_read (returned r) former h = (r, (refl, cc))

  pub first_read :
      (o : Option WorkerInstanceRow) (former : Option (WorkerInstanceRecord d))
      → record_of_first d o ≡ returned former
      → IsReadOf o former
  first_read none former h = cc
  first_read (some row) former h = some_read (record_of_row d row) former h

  module _ (T : Table WorkerInstanceRow) (table : IsTable WorkerInstanceRow T same_runtime_id) where
    abbrev pub the_get :
        Text → List WorkerInstanceRow → Outcome StoreError (Option (WorkerInstanceRecord d))
    the_get id rows = record_of_first d (find runtime_id_of id rows)

    pub get-rows : (id : Text) (s : T.State) → get_by_runtime_id d T id s ≡ the_get id (T.rows s)
    unfolding get_by_runtime_id
    get-rows id s =
        ap (λ rows. record_of_first d (first rows)) (table.select_rows (has_runtime_id id) s)

    -- It returned, and what is read of the two ids is this.
    pub record Reads (id other : Text) (mine : Option (WorkerInstanceRecord d))
        (others : Outcome StoreError (Option (WorkerInstanceRecord d)))
        (r : Outcome StoreError T.State) : Type 0 where
      pub returns : did_return r ≡ true
      pub mine_read : Yields (λ s. get_by_runtime_id d T id s ≡ returned mine) r
      pub others_kept : Yields (λ s. get_by_runtime_id d T other s ≡ others) r

-- ===== src/Persistence/Instances/Upserts.antt =====
-- What is written of an instance is read back.
use swr_ddd.Common.{
  true, false, not, Option, none, some, List, [], ◌∷◌, ◌++◌, ◌==◌, ◌≡◌, refl, ap, sym, ◌∙◌, subst,
  arith, is_some, returned, Outcome, ◌>>=◌,
}
use swr_ddd.Common.Text.{Text, text_eq}
use swr_ddd.Persistence.Wire.{
  Datetime, StoreError, IsLawful, optional_from_wire, optional_to_wire, wire_of, to_wire_ts-aware,
  from_wire_ts-wire, is_aware_option,
}
use swr_ddd.Persistence.Sql.{Table, IsTable, any, Inserted}
use swr_ddd.Persistence.Instances.{
  WorkerInstanceRow, WorkerInstanceRecord, has_runtime_id, record_of_row, record_of_first,
  get_by_runtime_id, overwrite, upsert_instance, insert_if_missing, insert_instance,
  insert_or_raise,
}
use swr_ddd.Persistence.Instances.Rows.{
  runtime_id_of, same_runtime_id, the_get, get-rows, Reads, heartbeat_read, IsReadOf, first_read,
}
use swr_ddd.Persistence.Sql.Keyed.{
  find, find-update_other, find-update, count_none, find-id, any-find, append-mine, append-other,
  update_found,
}

module _ (d : Datetime) where
  abbrev pub option_to_utc : Option d.Moment → Option d.Moment
  option_to_utc none = none
  option_to_utc (some m) = some (d.to_utc m)

  -- the former record's heartbeat, or the new one's
  abbrev pub kept_heartbeat :
      Option (WorkerInstanceRecord d) → WorkerInstanceRecord d → Option d.Moment
  kept_heartbeat none i = option_to_utc i.last_heartbeat_at
  kept_heartbeat (some former) i = former.last_heartbeat_at

  -- what is read after an instance was written over a former one
  abbrev pub upserted :
      WorkerInstanceRecord d → Option (WorkerInstanceRecord d) → WorkerInstanceRecord d
  upserted i former = record {
    runtime_id = i.runtime_id;
    columns = i.columns;
    occurred_at = d.to_utc i.occurred_at;
    observed_at = d.to_utc i.observed_at;
    last_heartbeat_at = kept_heartbeat former i;
  }

  module _ (laws : IsLawful d) (T : Table WorkerInstanceRow)
      (table : IsTable WorkerInstanceRow T same_runtime_id) where
    abbrev found_one :
        Outcome StoreError (WorkerInstanceRecord d)
        → Outcome StoreError (Option (WorkerInstanceRecord d))
    found_one x = x >>= λ r. returned (some r)

    overwritten_row :
        (i : WorkerInstanceRecord d) (row : WorkerInstanceRow) (former : WorkerInstanceRecord d)
        → row.runtime_id ≡ i.runtime_id
        → record_of_row d row ≡ returned former
        → record_of_row d (overwrite d T i (wire_of d i.occurred_at) (wire_of d i.observed_at) row)
          ≡ returned (upserted i (some former))
    overwritten_row i row former e h =
        rw
          (
            from_wire_ts-wire d laws i.occurred_at,
            from_wire_ts-wire d laws i.observed_at,
            heartbeat_read d row former h,
            e,
          )
          refl

    abbrev new_row : WorkerInstanceRecord d → Option Text → WorkerInstanceRow
    new_row i last = record {
      runtime_id = i.runtime_id;
      columns = i.columns;
      occurred_at = wire_of d i.occurred_at;
      observed_at = wire_of d i.observed_at;
      last_heartbeat_at = last;
    }

    abbrev wire_option : Option d.Moment → Option Text
    wire_option none = none
    wire_option (some m) = some (wire_of d m)

    wire_option-read :
        (o : Option d.Moment) → optional_from_wire d (wire_option o) ≡ returned (option_to_utc o)
    wire_option-read none = refl
    wire_option-read (some m) = rw (from_wire_ts-wire d laws m) refl

    optional_to_wire-aware :
        (o : Option d.Moment)
        → is_aware_option d o ≡ true
        → optional_to_wire d o ≡ returned (wire_option o)
    optional_to_wire-aware none h = refl
    optional_to_wire-aware (some m) h = rw (to_wire_ts-aware d m h) refl

    inserted_row :
        (i : WorkerInstanceRecord d)
        → record_of_row d (new_row i (wire_option i.last_heartbeat_at)) ≡ returned (upserted i none)
    inserted_row i =
        rw
          (
            from_wire_ts-wire d laws i.occurred_at,
            from_wire_ts-wire d laws i.observed_at,
            wire_option-read i.last_heartbeat_at,
          )
          refl

    -- an insert that meets no row with its key succeeds
    abbrev pub InsertsFresh : Type 0
    InsertsFresh =
        (row : WorkerInstanceRow) (s : T.State)
        → any (same_runtime_id row) (T.rows s) ≡ false
        → is_some (T.insert row s) ≡ true

    Inserted-Reads :
        (id other : Text) (rows : List WorkerInstanceRow) (row : WorkerInstanceRow)
        (o : Option T.State) (m : WorkerInstanceRecord d)
        → record_of_row d row ≡ returned m
        → row.runtime_id ≡ id
        → find runtime_id_of id rows ≡ none
        → text_eq id other ≡ false
        → is_some o ≡ true
        → Inserted T (rows ++ row ∷ []) o
        → Reads d T table id other (some m) (the_get d T table other rows) (insert_or_raise d T o)
    Inserted-Reads id other rows row none m read e missing ne ok h = absurd (ground arith)
    Inserted-Reads id other rows row (some s) m read e missing ne ok h = record {
      returns = refl;
      mine_read =
          get-rows d T table id s
          ∙ ap (the_get d T table id) h
          ∙ ap (record_of_first d) (append-mine runtime_id_of id rows row e missing)
          ∙ ap found_one read;
      others_kept =
          get-rows d T table other s
          ∙ ap (the_get d T table other) h
          ∙ ap (record_of_first d) (append-other runtime_id_of id other rows row e ne);
    }

    module _ (i : WorkerInstanceRecord d) (other : Text) (s : T.State) where
      abbrev overwriting : WorkerInstanceRow → WorkerInstanceRow
      overwriting = overwrite d T i (wire_of d i.occurred_at) (wire_of d i.observed_at)

      abbrev after_update : T.State
      after_update = (T.update (has_runtime_id i.runtime_id) overwriting s).1

      mine_after :
          find runtime_id_of i.runtime_id (T.rows after_update)
          ≡ update_found runtime_id_of overwriting (find runtime_id_of i.runtime_id (T.rows s))
      mine_after =
          ap (find runtime_id_of i.runtime_id)
            (table.update_rows_of (has_runtime_id i.runtime_id) overwriting s)
          ∙ find-update runtime_id_of i.runtime_id overwriting (T.rows s) (λ row. refl)

      others_after :
          text_eq i.runtime_id other ≡ false
          → find runtime_id_of other (T.rows after_update) ≡ find runtime_id_of other (T.rows s)
      others_after ne =
          ap (find runtime_id_of other)
            (table.update_rows_of (has_runtime_id i.runtime_id) overwriting s)
          ∙ find-update_other runtime_id_of other i.runtime_id overwriting (T.rows s) (λ row. refl)
              ne

      rowcount :
          ((T.update (has_runtime_id i.runtime_id) overwriting s).0 == 0)
          ≡ not (is_some (find runtime_id_of i.runtime_id (T.rows s)))
      rowcount =
          ap (λ n. n == 0) (table.update_count (has_runtime_id i.runtime_id) overwriting s)
          ∙ count_none runtime_id_of i.runtime_id (T.rows s)

      insert_instance-Reads :
          InsertsFresh
          → is_aware_option d i.last_heartbeat_at ≡ true
          → text_eq i.runtime_id other ≡ false
          → find runtime_id_of i.runtime_id (T.rows s) ≡ none
          → Reads d T table i.runtime_id other
              (some (upserted i none))
              (the_get d T table other (T.rows s))
              (insert_instance d T i
                (wire_of d i.occurred_at)
                (wire_of d i.observed_at)
                after_update)
      insert_instance-Reads fresh aware ne missing =
          let row : WorkerInstanceRow = new_row i (wire_option i.last_heartbeat_at) in
          let gone : find runtime_id_of i.runtime_id (T.rows after_update) ≡ none =
            mine_after ∙ ap (update_found runtime_id_of overwriting) missing in
          let ok =
            fresh row after_update
              (any-find runtime_id_of i.runtime_id (T.rows after_update) ∙ ap is_some gone) in
          let reads =
            Inserted-Reads i.runtime_id other (T.rows after_update) row (T.insert row after_update)
              (upserted i none) (inserted_row i) refl gone ne ok
              (table.insert_rows row after_update) in
          rw (optional_to_wire-aware i.last_heartbeat_at aware) (
            subst
              (λ o.
                Reads d T table i.runtime_id other (some (upserted i none)) (record_of_first d o)
                  (insert_or_raise d T (T.insert row after_update)))
              (others_after ne) reads)

      updated-Reads :
          (row : WorkerInstanceRow) (former : WorkerInstanceRecord d)
          → record_of_row d row ≡ returned former
          → text_eq i.runtime_id other ≡ false
          → find runtime_id_of i.runtime_id (T.rows s) ≡ some row
          → Reads d T table i.runtime_id other
              (some (upserted i (some former)))
              (the_get d T table other (T.rows s))
              (returned after_update)
      updated-Reads row former read ne found = record {
        returns = refl;
        mine_read =
            get-rows d T table i.runtime_id after_update
            ∙ ap (record_of_first d)
                (mine_after ∙ ap (update_found runtime_id_of overwriting) found)
            ∙ ap found_one (
                overwritten_row i row former
                  (find-id runtime_id_of i.runtime_id (T.rows s) row found) read);
        others_kept =
            get-rows d T table other after_update ∙ ap (record_of_first d) (others_after ne);
      }

      either-Reads :
          (o : Option WorkerInstanceRow) (former : Option (WorkerInstanceRecord d))
          → IsReadOf d o former
          → find runtime_id_of i.runtime_id (T.rows s) ≡ o
          → InsertsFresh
          → is_aware_option d i.last_heartbeat_at ≡ true
          → text_eq i.runtime_id other ≡ false
          → Reads d T table i.runtime_id other
              (some (upserted i former))
              (the_get d T table other (T.rows s))
              (insert_if_missing d T i
                (wire_of d i.occurred_at)
                (wire_of d i.observed_at)
                (T.update (has_runtime_id i.runtime_id) overwriting s))
      either-Reads none former read missing fresh aware ne =
          rw (read, rowcount ∙ ap (λ o. not (is_some o)) missing)
            (insert_instance-Reads fresh aware ne missing)
      either-Reads (some row) former (r, (read, e)) found fresh aware ne =
          rw (e, rowcount ∙ ap (λ o. not (is_some o)) found) (updated-Reads row r read ne found)

      -- When an insert without a conflict succeeds and the stored record, if there is one, is read
      -- without an exception, an instance with aware times is written without an exception and then
      -- read back: its columns as they are, its times in UTC, and the heartbeat of the record that it
      -- replaces, if there is one. What is read of another runtime stays.
      pub upsert_instance-Reads :
          (former : Option (WorkerInstanceRecord d))
          → get_by_runtime_id d T i.runtime_id s ≡ returned former
          → InsertsFresh
          → d.is_aware i.occurred_at ≡ true
          → d.is_aware i.observed_at ≡ true
          → is_aware_option d i.last_heartbeat_at ≡ true
          → text_eq i.runtime_id other ≡ false
          → Reads d T table i.runtime_id other
              (some (upserted i former))
              (get_by_runtime_id d T other s)
              (upsert_instance d T i s)
      unfolding upsert_instance
      upsert_instance-Reads former read fresh occurred observed last ne =
          let mine = find runtime_id_of i.runtime_id (T.rows s) in
          let stored = sym (get-rows d T table i.runtime_id s) ∙ read in
          rw
            (
              get-rows d T table other s,
              to_wire_ts-aware d i.occurred_at occurred,
              to_wire_ts-aware d i.observed_at observed,
            )
            (either-Reads mine former (first_read d mine former stored) refl fresh last ne)

-- ===== src/Persistence/Instances/Heartbeats.antt =====
-- The last heartbeat of an instance only moves forward.
use swr_ddd.Common.{
  Bool, true, false, Option, none, some, if◌then◌else◌, ◌≡◌, refl, ap, ◌∙◌, sym, returned, Outcome,
  ◌>>=◌,
}
use swr_ddd.Common.Text.{Text, text_eq}
use swr_ddd.Persistence.Wire.{
  Datetime, StoreError, IsLawful, wire_of, to_wire_ts-aware, from_wire_ts-wire,
}
use swr_ddd.Persistence.Sql.{Table, IsTable}
use swr_ddd.Persistence.Instances.{
  WorkerInstanceRow, WorkerInstanceRecord, has_runtime_id, record_of_row, record_of_first,
  get_by_runtime_id, with_heartbeat, record_heartbeat, heartbeat_of_current, write_heartbeat,
}
use swr_ddd.Persistence.Instances.Rows.{
  runtime_id_of, same_runtime_id, the_get, get-rows, Reads, retimed_read, IsReadOf, first_read,
}
use swr_ddd.Persistence.Sql.Keyed.{find, find-update_other, find-update, update_found}

module _ (d : Datetime) where
  -- a time that is not before this one, if this one is there
  abbrev pub is_not_earlier : Option d.Moment → d.Moment → Bool
  is_not_earlier none candidate = true
  is_not_earlier (some current) candidate = d.at_most current candidate

  -- what is read after a heartbeat was recorded: the later of the two, and a time in UTC
  abbrev pub heard :
      d.Moment → d.Moment → Option (WorkerInstanceRecord d) → Option (WorkerInstanceRecord d)
  heard heartbeat_at observed_at none = none
  heard heartbeat_at observed_at (some former) =
      if is_not_earlier former.last_heartbeat_at (d.to_utc heartbeat_at)
      then some (record former {
        observed_at = d.to_utc observed_at;
        last_heartbeat_at = some (d.to_utc heartbeat_at);
      })
      else some former

  module _ (laws : IsLawful d) (T : Table WorkerInstanceRow)
      (table : IsTable WorkerInstanceRow T same_runtime_id) where
    heard_row :
        (heartbeat_at observed_at : d.Moment) (row : WorkerInstanceRow)
        (former : WorkerInstanceRecord d)
        → record_of_row d row ≡ returned former
        → record_of_row d
            (with_heartbeat d T (wire_of d (d.to_utc heartbeat_at)) (wire_of d observed_at) row)
          ≡ returned (record former {
            observed_at = d.to_utc observed_at;
            last_heartbeat_at = some (d.to_utc heartbeat_at);
          })
    heard_row heartbeat_at observed_at row former read =
        retimed_read d row former (wire_of d observed_at) (wire_of d (d.to_utc heartbeat_at))
          (d.to_utc observed_at) (some (d.to_utc heartbeat_at)) read
          (from_wire_ts-wire d laws observed_at)
          (rw (from_wire_ts-wire d laws (d.to_utc heartbeat_at), laws.to_utc_idem heartbeat_at)
            refl)

    abbrev found_one :
        Outcome StoreError (WorkerInstanceRecord d)
        → Outcome StoreError (Option (WorkerInstanceRecord d))
    found_one x = x >>= λ r. returned (some r)

    module _ (id other : Text) (heartbeat_at observed_at : d.Moment) (s : T.State) where
      abbrev beat : WorkerInstanceRow → WorkerInstanceRow
      beat = with_heartbeat d T (wire_of d (d.to_utc heartbeat_at)) (wire_of d observed_at)

      -- the record with the new heartbeat and observation
      abbrev beaten : WorkerInstanceRecord d → WorkerInstanceRecord d
      beaten former = record former {
        observed_at = d.to_utc observed_at;
        last_heartbeat_at = some (d.to_utc heartbeat_at);
      }

      written-Reads :
          (row : WorkerInstanceRow) (former : WorkerInstanceRecord d)
          → record_of_row d row ≡ returned former
          → text_eq id other ≡ false
          → find runtime_id_of id (T.rows s) ≡ some row
          → Reads d T table id other
              (some (beaten former))
              (the_get d T table other (T.rows s))
              (returned (T.update (has_runtime_id id) beat s).1)
      written-Reads row former read ne found = record {
        returns = refl;
        mine_read =
            get-rows d T table id (T.update (has_runtime_id id) beat s).1
            ∙ ap (record_of_first d) (
                ap (find runtime_id_of id) (table.update_rows_of (has_runtime_id id) beat s)
                ∙ find-update runtime_id_of id beat (T.rows s) (λ r. refl)
                ∙ ap (update_found runtime_id_of beat) found)
            ∙ ap found_one (heard_row heartbeat_at observed_at row former read);
        others_kept =
            get-rows d T table other (T.update (has_runtime_id id) beat s).1
            ∙ ap (record_of_first d) (
                ap (find runtime_id_of other) (table.update_rows_of (has_runtime_id id) beat s)
                ∙ find-update_other runtime_id_of other id beat (T.rows s) (λ r. refl) ne);
      }

      unchanged-Reads :
          (former : Option (WorkerInstanceRecord d))
          → get_by_runtime_id d T id s ≡ returned former
          → Reads d T table id other former (the_get d T table other (T.rows s)) (returned s)
      unchanged-Reads former read = record {
        returns = refl;
        mine_read = read;
        others_kept = get-rows d T table other s;
      }

      decided-Reads :
          (accepted : Bool) (row : WorkerInstanceRow) (former : WorkerInstanceRecord d)
          → record_of_row d row ≡ returned former
          → get_by_runtime_id d T id s ≡ returned (some former)
          → find runtime_id_of id (T.rows s) ≡ some row
          → d.is_aware observed_at ≡ true
          → text_eq id other ≡ false
          → Reads d T table id other
              (if accepted then some (beaten former) else some former)
              (the_get d T table other (T.rows s))
              (if accepted
                then write_heartbeat d T id (d.to_utc heartbeat_at) observed_at s
                else returned s)
      decided-Reads false row former read got found observed ne = unchanged-Reads (some former) got
      decided-Reads true row former read got found observed ne =
          rw
            (
              to_wire_ts-aware d (d.to_utc heartbeat_at) (laws.is_aware-to_utc heartbeat_at),
              to_wire_ts-aware d observed_at observed,
            )
            (written-Reads row former read ne found)

      heartbeat-Reads :
          (o : Option WorkerInstanceRow) (former : Option (WorkerInstanceRecord d))
          → IsReadOf d o former
          → get_by_runtime_id d T id s ≡ returned former
          → find runtime_id_of id (T.rows s) ≡ o
          → d.is_aware heartbeat_at ≡ true
          → d.is_aware observed_at ≡ true
          → text_eq id other ≡ false
          → Reads d T table id other
              (heard heartbeat_at observed_at former)
              (the_get d T table other (T.rows s))
              (heartbeat_of_current d T id heartbeat_at observed_at s former)
      heartbeat-Reads none former read got missing beats observed ne =
          rw read (unchanged-Reads none (got ∙ ap returned read))
      heartbeat-Reads (some row) former (r, (read, e)) got found beats observed ne =
          let accepted = is_not_earlier r.last_heartbeat_at (d.to_utc heartbeat_at) in
          rw (e, beats) (decided-Reads accepted row r read (got ∙ ap returned e) found observed ne)

      -- A heartbeat with aware times is recorded without an exception, if the runtime's stored record,
      -- where there is one, is read without one. What is then read of the runtime is its record with
      -- the time and the observation in UTC, unless the stored heartbeat is later, which keeps the
      -- record as it was; an unknown runtime stays unknown. What is read of another runtime stays.
      pub record_heartbeat-Reads :
          (former : Option (WorkerInstanceRecord d))
          → get_by_runtime_id d T id s ≡ returned former
          → d.is_aware heartbeat_at ≡ true
          → d.is_aware observed_at ≡ true
          → text_eq id other ≡ false
          → Reads d T table id other
              (heard heartbeat_at observed_at former)
              (get_by_runtime_id d T other s)
              (record_heartbeat d T id heartbeat_at observed_at s)
      unfolding record_heartbeat
      record_heartbeat-Reads former got beats observed ne =
          let mine = find runtime_id_of id (T.rows s) in
          let stored = sym (get-rows d T table id s) ∙ got in
          rw (got, get-rows d T table other s)
            (heartbeat-Reads mine former (first_read d mine former stored) got refl beats observed
              ne)

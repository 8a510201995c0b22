-- ===== src/Persistence/Instances.antt =====
-- `WorkerInstanceRecord` and `SQLiteWorkerInstanceRepository`.
pub mod Rows
pub mod Upserts
pub mod Heartbeats
use swr_ddd.Common.{
  ℕ, zero, suc, ℤ, Bool, true, false, Option, none, some, List, [], ◌∷◌, ◌==◌, if◌then◌else◌,
  Outcome, returned, raised, ◌>>=◌,
}
use swr_ddd.Common.Text.{Text, text_eq}
use swr_ddd.Persistence.Wire.{
  Datetime, StoreError, integrity_error, to_wire_ts, from_wire_ts, optional_to_wire,
  optional_from_wire, require_utc, read_option, read_all,
}
use swr_ddd.Persistence.Sql.{Table, first}

-- the columns that are plain values, in the record as in the table
pub record Columns : Type 0 where
  pub worker_identity : Text
  pub tenant_id : Text
  pub trader_id : Option Text
  pub account_id : Option Text
  pub strategy_version_id : Text
  pub launch_attempt : ℤ
  pub state : Text
  pub reason_code : Option Text
  pub correlation_id : Option Text
  pub causation_id : Option Text

-- T is the type of times: `datetime` in the record, text in the table
pub record Instance (T : Type 0) : Type 0 where
  pub runtime_id : Text
  pub columns : Columns
  pub occurred_at : T
  pub observed_at : T
  pub last_heartbeat_at : Option T

abbrev pub WorkerInstanceRow : Type 0
WorkerInstanceRow = Instance Text

abbrev pub has_runtime_id : Text → WorkerInstanceRow → Bool
has_runtime_id runtime_id row = text_eq row.runtime_id runtime_id

module _ (d : Datetime) where
  abbrev pub WorkerInstanceRecord : Type 0
  WorkerInstanceRecord = Instance d.Moment

  -- the row's fields, read into a record
  abbrev pub record_of_row : WorkerInstanceRow → Outcome StoreError WorkerInstanceRecord
  record_of_row row = do
    occurred ← from_wire_ts d row.occurred_at
    observed ← from_wire_ts d row.observed_at
    last ← optional_from_wire d row.last_heartbeat_at
    returned (record {
      runtime_id = row.runtime_id;
      columns = row.columns;
      occurred_at = occurred;
      observed_at = observed;
      last_heartbeat_at = last;
    })

  abbrev pub record_of_first :
      Option WorkerInstanceRow → Outcome StoreError (Option WorkerInstanceRecord)
  record_of_first o = read_option record_of_row o

  module _ (T : Table WorkerInstanceRow) where
    unfoldable pub get_by_runtime_id :
        Text → T.State → Outcome StoreError (Option WorkerInstanceRecord)
    unfolding from_wire_ts
    get_by_runtime_id runtime_id s =
        record_of_first (first (T.select (has_runtime_id runtime_id) s))

    abbrev pub insert_or_raise : Option T.State → Outcome StoreError T.State
    insert_or_raise none = raised integrity_error
    insert_or_raise (some s) = returned s

    -- the `insert` of `upsert_instance`
    abbrev pub insert_instance :
        WorkerInstanceRecord → Text → Text → T.State → Outcome StoreError T.State
    insert_instance i occurred observed s = do
      last ← optional_to_wire d i.last_heartbeat_at
      insert_or_raise (
          T.insert
            record {
              runtime_id = i.runtime_id;
              columns = i.columns;
              occurred_at = occurred;
              observed_at = observed;
              last_heartbeat_at = last;
            }
            s)

    -- the `values` of the update: all but the heartbeat
    abbrev pub overwrite :
        WorkerInstanceRecord → Text → Text → WorkerInstanceRow → WorkerInstanceRow
    overwrite i occurred observed row = record row {
      columns = i.columns;
      occurred_at = occurred;
      observed_at = observed;
    }

    abbrev pub insert_if_missing :
        WorkerInstanceRecord → Text → Text → ℕ × T.State → Outcome StoreError T.State
    insert_if_missing i occurred observed (rowcount, s) =
        if rowcount == 0 then insert_instance i occurred observed s else returned s

    unfoldable pub upsert_instance : WorkerInstanceRecord → T.State → Outcome StoreError T.State
    unfolding to_wire_ts
    upsert_instance i s = do
      occurred ← to_wire_ts d i.occurred_at
      observed ← to_wire_ts d i.observed_at
      insert_if_missing i occurred observed
          (T.update (has_runtime_id i.runtime_id) (overwrite i occurred observed) s)

    -- the columns that `update_state` sets
    abbrev pub with_state :
        Text
        → Option Text
        → ℤ
        → Option Text
        → Option Text
        → Text
        → Text
        → WorkerInstanceRow
        → WorkerInstanceRow
    with_state state reason_code launch_attempt correlation_id causation_id occurred observed row =
        record row {
          columns = record row.columns {
            launch_attempt = launch_attempt;
            state = state;
            reason_code = reason_code;
            correlation_id = correlation_id;
            causation_id = causation_id;
          };
          occurred_at = occurred;
          observed_at = observed;
        }

    unfoldable pub update_state :
        Text
        → Text
        → Option Text
        → ℤ
        → d.Moment
        → d.Moment
        → Option Text
        → Option Text
        → T.State
        → Outcome StoreError T.State
    unfolding to_wire_ts
    update_state runtime_id state reason_code attempt occurred_at observed_at correlation causation
          s =
        do
          occurred ← to_wire_ts d occurred_at
          observed ← to_wire_ts d observed_at
          returned
              (T.update (has_runtime_id runtime_id)
                (with_state state reason_code attempt correlation causation occurred observed) s).1

    -- `current_ts is None or candidate >= current_ts`
    abbrev pub accepts_heartbeat : Option d.Moment → d.Moment → Bool
    accepts_heartbeat none candidate = true
    accepts_heartbeat (some current) candidate = d.at_most current candidate

    abbrev pub with_heartbeat : Text → Text → WorkerInstanceRow → WorkerInstanceRow
    with_heartbeat heartbeat observed row = record row {
      last_heartbeat_at = some heartbeat;
      observed_at = observed;
    }

    abbrev pub write_heartbeat : Text → d.Moment → d.Moment → T.State → Outcome StoreError T.State
    write_heartbeat runtime_id candidate observed_at s = do
      heartbeat ← to_wire_ts d candidate
      observed ← to_wire_ts d observed_at
      returned (T.update (has_runtime_id runtime_id) (with_heartbeat heartbeat observed) s).1

    -- after the current record was read
    abbrev pub heartbeat_of_current :
        Text
        → d.Moment
        → d.Moment
        → T.State
        → Option WorkerInstanceRecord
        → Outcome StoreError T.State
    heartbeat_of_current runtime_id heartbeat_at observed_at s none = returned s
    heartbeat_of_current runtime_id heartbeat_at observed_at s (some current) = do
      candidate ← require_utc d heartbeat_at
      if accepts_heartbeat current.last_heartbeat_at candidate
          then write_heartbeat runtime_id candidate observed_at s
          else returned s

    unfoldable pub record_heartbeat :
        Text → d.Moment → d.Moment → T.State → Outcome StoreError T.State
    unfolding get_by_runtime_id to_wire_ts
    record_heartbeat runtime_id heartbeat_at observed_at s =
        get_by_runtime_id runtime_id s >>= λ current.
        heartbeat_of_current runtime_id heartbeat_at observed_at s current

    unfoldable pub list_by_strategy_version :
        Text → T.State → Outcome StoreError (List WorkerInstanceRecord)
    unfolding from_wire_ts
    list_by_strategy_version strategy_version_id s =
        read_all record_of_row
          (T.select (λ row. text_eq row.columns.strategy_version_id strategy_version_id) s)

-- ===== src/Persistence/WorkerEvents.antt =====
-- `WorkerEventRecord` and `SQLiteWorkerEventRepository`, with `_to_json` and `_from_json`. Python's
-- `json` is a parameter.
pub mod Once
use swr_ddd.Common.{
  ℤ, Bool, true, false, Option, none, some, List, [], ◌∷◌, Outcome, returned, raised, ◌>>=◌,
  is_some, if◌then◌else◌,
}
use swr_ddd.Common.Text.{Text, codes, text_eq, is_empty}
use swr_ddd.Common.Dict.{Dict}
use swr_ddd.Persistence.Wire.{
  Datetime, StoreError, integrity_error, unserialisable, malformed_json, some_or, read_option,
  to_wire_ts, from_wire_ts,
}
use swr_ddd.Persistence.Sql.{Table, first}

-- what `json.loads` returns
pub data Loaded (V : Type 0) : Type 0 where
  dict_value : Dict V → Loaded V
  other_value : V → Loaded V

pub record Json : Type 1 where
  pub Value : Type 0
  -- `json.dumps(value, sort_keys=True, separators=(",", ":"), ensure_ascii=True)`, `none` where it
  -- raises
  pub dumps : Dict Value → Option Text
  -- `none` where it raises `JSONDecodeError`
  pub loads : Text → Option (Loaded Value)

-- the columns that are plain values, in the record as in the table
pub record EventColumns : Type 0 where
  pub runtime_id : Text
  pub worker_identity : Text
  pub launch_attempt : ℤ
  pub event_family : Text
  pub state : Option Text
  pub reason_code : Option Text
  pub correlation_id : Option Text
  pub causation_id : Option Text

-- T is the type of times, P that of payloads
pub record Event (T P : Type 0) : Type 0 where
  pub event_id : Text
  pub columns : EventColumns
  pub occurred_at : T
  pub observed_at : T
  pub payload : P

abbrev pub WorkerEventRow : Type 0
WorkerEventRow = Event Text (Option Text)

abbrev pub event_id_of : WorkerEventRow → Text
event_id_of row = row.event_id

module _ (j : Json) where
  abbrev pub to_json : Option (Dict j.Value) → Outcome StoreError (Option Text)
  to_json none = returned none
  to_json (some value) = some_or unserialisable (j.dumps value) >>= λ t. returned (some t)

  abbrev pub dict_of_loaded : Loaded j.Value → Dict j.Value
  dict_of_loaded (dict_value d) = d
  dict_of_loaded (other_value v) = (codes "value", v) ∷ []

  abbrev pub from_json : Option Text → Outcome StoreError (Dict j.Value)
  from_json none = returned []
  from_json (some value) =
      if is_empty value
      then returned []
      else some_or malformed_json (j.loads value) >>= λ loaded. returned (dict_of_loaded loaded)

module _ (d : Datetime) (j : Json) where
  abbrev pub WorkerEventRecord : Type 0
  WorkerEventRecord = Event d.Moment (Option (Dict j.Value))

  -- what is read has a dict for its payload
  abbrev pub ReadEvent : Type 0
  ReadEvent = Event d.Moment (Dict j.Value)

  abbrev pub event_of_row : WorkerEventRow → Outcome StoreError ReadEvent
  event_of_row row = do
    occurred ← from_wire_ts d row.occurred_at
    observed ← from_wire_ts d row.observed_at
    payload ← from_json j row.payload
    returned (record {
      event_id = row.event_id;
      columns = row.columns;
      occurred_at = occurred;
      observed_at = observed;
      payload = payload;
    })

  abbrev pub event_of_first : Option WorkerEventRow → Outcome StoreError (Option ReadEvent)
  event_of_first o = read_option event_of_row o

  module _ (T : Table WorkerEventRow) where
    unfoldable pub get_by_event_id : Text → T.State → Outcome StoreError (Option ReadEvent)
    unfolding from_wire_ts
    get_by_event_id event_id s =
        event_of_first (first (T.select (λ row. text_eq row.event_id event_id) s))

    -- `except IntegrityError`
    abbrev pub inserted_or_known :
        Text → T.State → Option T.State → Outcome StoreError (Bool × T.State)
    inserted_or_known event_id s (some s') = returned (true, s')
    inserted_or_known event_id s none = get_by_event_id event_id s >>= λ existing.
        if is_some existing then returned (false, s) else raised integrity_error

    unfoldable pub append_event : WorkerEventRecord → T.State → Outcome StoreError (Bool × T.State)
    unfolding get_by_event_id to_wire_ts
    append_event e s = do
      occurred ← to_wire_ts d e.occurred_at
      observed ← to_wire_ts d e.observed_at
      payload ← to_json j e.payload
      inserted_or_known e.event_id s (
          T.insert
            record {
              event_id = e.event_id;
              columns = e.columns;
              occurred_at = occurred;
              observed_at = observed;
              payload = payload;
            }
            s)

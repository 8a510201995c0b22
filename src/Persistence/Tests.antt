-- ===== src/Persistence/Tests.antt =====
-- The theorems on the repositories at tables in memory.
use swr_ddd.Common.{
  ℕ, zero, suc, pos, true, false, none, some, List, [], ◌∷◌, ◌≡◌, refl, ap, arith, leb, length,
  is_some,
}
use swr_ddd.Common.Text.{Text, codes, text_eq}
use swr_ddd.Common.Offsets.{has_z, replace_z}
use swr_ddd.Persistence.Wire.{Datetime, IsLawful, from_wire_ts}
use swr_ddd.Persistence.Sql.{Table, any}
use swr_ddd.Persistence.Memory.{memory_table, memory_table-IsTable}
use swr_ddd.Persistence.Instances.{
  Instance, WorkerInstanceRow, get_by_runtime_id, upsert_instance, record_heartbeat,
}
use swr_ddd.Persistence.Instances.Rows.{same_runtime_id, Reads}
use swr_ddd.Persistence.Instances.Upserts.{upserted, upsert_instance-Reads}
use swr_ddd.Persistence.Instances.Heartbeats.{heard, record_heartbeat-Reads}
use swr_ddd.Persistence.WorkerEvents.{
  Json, other_value, WorkerEventRow, WorkerEventRecord, get_by_event_id, append_event,
}
use swr_ddd.Persistence.WorkerEvents.Once.{same_event_id, Appends, read_back, append_event-Appends}

-- a time is a number, written as so many letters
tally : ℕ → Text
tally zero = []
tally (suc n) = b'i' ∷ tally n

tally-NoZ : (n : ℕ) → has_z (tally n) ≡ false
unfolding tally
tally-NoZ zero = refl
tally-NoZ (suc n) = tally-NoZ n

length-tally : (n : ℕ) → length (tally n) ≡ n
unfolding tally
length-tally zero = refl
length-tally (suc n) = omega (arith, length-tally n)

abbrev counted : Datetime
counted = record {
  Moment = ℕ;
  is_aware = λ m. true;
  to_utc = λ m. m;
  isoformat = tally;
  fromisoformat = λ t. some (length t);
  at_most = leb;
}

counted-IsLawful : IsLawful counted
counted-IsLawful = record {
  is_aware-to_utc = λ m. refl;
  to_utc_idem = λ m. refl;
  fromisoformat-isoformat = λ m. ap some (length-tally m);
  isoformat-NoZ = tally-NoZ;
}

abbrev instances : Table WorkerInstanceRow
instances = memory_table same_runtime_id

abbrev worker : Instance ℕ
worker = record {
  runtime_id = codes "r1";
  columns = record {
    worker_identity = codes "w";
    tenant_id = codes "t";
    trader_id = none;
    account_id = none;
    strategy_version_id = codes "v";
    launch_attempt = pos 1;
    state = codes "READY";
    reason_code = none;
    correlation_id = none;
    causation_id = none;
  };
  occurred_at = 4;
  observed_at = 5;
  last_heartbeat_at = some 3;
}

fresh_rows :
    (row : WorkerInstanceRow) (s : List WorkerInstanceRow)
    → any (same_runtime_id row) s ≡ false
    → is_some (instances.insert row s) ≡ true
fresh_rows row s h = ground arith

upsert_example :
    Reads counted instances
      (memory_table-IsTable same_runtime_id)
      (codes "r1")
      (codes "r2")
      (some (upserted counted worker none))
      (get_by_runtime_id counted instances (codes "r2") [])
      (upsert_instance counted instances worker [])
unfolding text_eq get_by_runtime_id
upsert_example =
    upsert_instance-Reads counted counted-IsLawful instances (memory_table-IsTable same_runtime_id)
      worker (codes "r2") [] none refl fresh_rows refl refl refl refl

abbrev stored_worker : WorkerInstanceRow
stored_worker = record {
  runtime_id = codes "r1";
  columns = worker.columns;
  occurred_at = codes "iiii";
  observed_at = codes "iiiii";
  last_heartbeat_at = some (codes "iii");
}

heartbeat_example :
    Reads counted instances
      (memory_table-IsTable same_runtime_id)
      (codes "r1")
      (codes "r2")
      (heard counted 7 8 (some worker))
      (get_by_runtime_id counted instances (codes "r2") (stored_worker ∷ []))
      (record_heartbeat counted instances (codes "r1") 7 8 (stored_worker ∷ []))
unfolding text_eq get_by_runtime_id from_wire_ts replace_z
heartbeat_example =
    record_heartbeat-Reads counted counted-IsLawful instances (memory_table-IsTable same_runtime_id)
      (codes "r1") (codes "r2") 7 8 (stored_worker ∷ []) (some worker) refl refl refl refl

abbrev small_json : Json
small_json = record {
  Value = Text;
  dumps = λ d. some (codes "{}");
  loads = λ s. some (other_value s);
}

abbrev events : Table WorkerEventRow
events = memory_table same_event_id

abbrev ready_event : WorkerEventRecord counted small_json
ready_event = record {
  event_id = codes "e1";
  columns = record {
    runtime_id = codes "r1";
    worker_identity = codes "w";
    launch_attempt = pos 1;
    event_family = codes "bootstrap";
    state = none;
    reason_code = none;
    correlation_id = none;
    causation_id = none;
  };
  occurred_at = 4;
  observed_at = 5;
  payload = some ((codes "k", codes "v") ∷ []);
}

append_example :
    Appends counted small_json counted-IsLawful events
      (memory_table-IsTable same_event_id)
      (codes "e1")
      (codes "e2")
      true
      (read_back counted small_json ready_event ((codes "value", codes "{}") ∷ []))
      (get_by_event_id counted small_json events (codes "e2") [])
      (append_event counted small_json events ready_event [])
unfolding text_eq get_by_event_id
append_example =
    append_event-Appends counted small_json counted-IsLawful events
      (memory_table-IsTable same_event_id) ready_event (some (codes "{}"))
      ((codes "value", codes "{}") ∷ []) refl (codes "e2") [] none refl refl refl refl (λ h. refl)
      refl

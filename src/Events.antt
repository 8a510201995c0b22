-- ===== src/Events.antt =====
-- runtime/events: the types of lifecycle signals with their table (event_factory.py). Dedupe has the
-- deduplication of their events and Envelope how a signal becomes an event.
pub mod Dedupe
pub mod Envelope
mod Tests
use swr_ddd.Common.{
  ℕ, ◌+◌, Bool, true, false, Option, none, some, List, [], ◌∷◌, ◌++◌, ltb, leb, is_some,
  if◌then◌else◌, Outcome, NoneType, returned, raised, raise_if, ◌>>=◌, ◌>>◌,
}
use swr_ddd.Common.Text.{Text, codes, strip, is_empty}

-- the keys of `_SIGNAL_META`, and any other text
pub data SignalType : Type 0 where
  bootstrap_succeeded bootstrap_failed heartbeat unhealthy controlled_stop terminated : SignalType
  unsupported : Text → SignalType

pub record SignalMeta : Type 0 where
  pub event_name : Text
  pub event_type : Text
  pub event_version : ℕ
  pub event_family : Text

unfoldable pub signal_meta : SignalType → Option SignalMeta
signal_meta bootstrap_succeeded = some (record {
  event_name = codes "runtime.launch_succeeded";
  event_type = codes "worker.lifecycle.bootstrap_succeeded";
  event_version = 1;
  event_family = codes "bootstrap";
})
signal_meta bootstrap_failed = some (record {
  event_name = codes "runtime.launch_failed";
  event_type = codes "worker.lifecycle.bootstrap_failed";
  event_version = 1;
  event_family = codes "bootstrap";
})
signal_meta heartbeat = some (record {
  event_name = codes "runtime.heartbeat";
  event_type = codes "worker.lifecycle.heartbeat";
  event_version = 1;
  event_family = codes "heartbeat";
})
signal_meta unhealthy = some (record {
  event_name = codes "runtime.unhealthy";
  event_type = codes "worker.lifecycle.unhealthy";
  event_version = 1;
  event_family = codes "health";
})
signal_meta controlled_stop = some (record {
  event_name = codes "runtime.controlled_stop";
  event_type = codes "worker.lifecycle.controlled_stop";
  event_version = 1;
  event_family = codes "lifecycle";
})
signal_meta terminated = some (record {
  event_name = codes "runtime.terminated";
  event_type = codes "worker.lifecycle.terminated";
  event_version = 1;
  event_family = codes "lifecycle";
})
signal_meta (unsupported name) = none

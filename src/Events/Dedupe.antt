-- ===== src/Events/Dedupe.antt =====
-- runtime/events/dedupe.py: `LifecycleSignalDedupe`, with the fields of an envelope that it reads.
-- The set of keys is the list of its elements, newest first; `key not in` is tested before `add`.
pub mod Refinement
pub mod Once
use swr_ddd.Common.{
  ℕ, Bool, true, false, ◌&&◌, Option, none, some, List, [], ◌∷◌, max, ltb, ◌==◌, if◌then◌else◌,
}
use swr_ddd.Common.Text.{Text, text_eq}
use swr_ddd.Common.Dict.{Dict, get, put}

pub data DedupeDecision : Type 0 where
  accept drop_duplicate drop_stale_attempt : DedupeDecision

-- the tuple (runtime_id, launch_attempt, event_family, event_name, identity_key)
pub record EventKey : Type 0 where
  pub runtime_id : Text
  pub launch_attempt : ℕ
  pub event_family : Text
  pub event_name : Text
  pub identity_key : Text

unfoldable pub key_eq : EventKey → EventKey → Bool
key_eq a b =
    text_eq a.runtime_id b.runtime_id
    && ((a.launch_attempt == b.launch_attempt)
        && (text_eq a.event_family b.event_family
            && (text_eq a.event_name b.event_name && text_eq a.identity_key b.identity_key)))

-- `key in keys`
unfoldable pub seen_before : EventKey → List EventKey → Bool
seen_before key [] = false
seen_before key (k ∷ ks) = if key_eq k key then true else seen_before key ks

pub record LifecycleSignalDedupe : Type 0 where
  pub latest_attempt_by_runtime : Dict ℕ
  pub seen_identity_keys : List EventKey

abbrev pub empty : LifecycleSignalDedupe
empty = record { latest_attempt_by_runtime = []; seen_identity_keys = [] }

abbrev pub or_default : Option ℕ → ℕ → ℕ
or_default none d = d
or_default (some n) d = n

-- the key's attempt against `effective_current`, then the key against those seen
unfoldable pub decide :
    LifecycleSignalDedupe → EventKey → ℕ → DedupeDecision × LifecycleSignalDedupe
decide self envelope current_launch_attempt =
    let latest_seen =
      or_default (get envelope.runtime_id self.latest_attempt_by_runtime) current_launch_attempt in
    let effective_current = max current_launch_attempt latest_seen in
    if ltb envelope.launch_attempt effective_current
    then (drop_stale_attempt, self)
    else if seen_before envelope self.seen_identity_keys
    then (drop_duplicate, self)
    else (
      accept,
      record {
        latest_attempt_by_runtime =
            put envelope.runtime_id (max envelope.launch_attempt latest_seen)
              self.latest_attempt_by_runtime;
        seen_identity_keys = envelope ∷ self.seen_identity_keys;
      },
    )

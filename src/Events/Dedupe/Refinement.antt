-- ===== src/Events/Dedupe/Refinement.antt =====
-- The two tables of the dedupe are a view of one thing: the keys accepted so far.
use swr_ddd.Common.{ℕ, ◌≡◌, refl, Option, none, some, List, [], ◌∷◌, arith, max, ltb, if◌then◌else◌}
use swr_ddd.Common.Text.{Text, text_eq}
use swr_ddd.Common.Dict.{get, get-put}
use swr_ddd.Events.Dedupe.{
  DedupeDecision, accept, drop_duplicate, drop_stale_attempt, EventKey, seen_before,
  LifecycleSignalDedupe, empty, decide, or_default,
}

-- The attempt of the newest accepted key of a runtime.
abbrev pub last_attempt : Text → List EventKey → Option ℕ
last_attempt rid [] = none
last_attempt rid (k ∷ ks) =
    if text_eq k.runtime_id rid then some k.launch_attempt else last_attempt rid ks

-- The specification: a decision from the accepted keys alone.
abbrev pub verdict : List EventKey → EventKey → ℕ → DedupeDecision
verdict accepted key current =
    if ltb key.launch_attempt
      (max current (or_default (last_attempt key.runtime_id accepted) current))
    then drop_stale_attempt
    else if seen_before key accepted
    then drop_duplicate
    else accept

abbrev pub remember : DedupeDecision → EventKey → List EventKey → List EventKey
remember accept key accepted = key ∷ accepted
remember _ key accepted = accepted

pub record Represents (d : LifecycleSignalDedupe) (accepted : List EventKey) : Type 0 where
  pub keys : d.seen_identity_keys ≡ accepted
  pub attempts : (rid : Text) → get rid d.latest_attempt_by_runtime ≡ last_attempt rid accepted

pub empty-Represents : Represents empty []
unfolding get
empty-Represents = record { keys = refl; attempts = λ rid. refl }

module _ (d : LifecycleSignalDedupe) (accepted : List EventKey) (key : EventKey) (current : ℕ) where
  decide-verdict : Represents d accepted → (decide d key current).0 ≡ verdict accepted key current
  unfolding decide
  decide-verdict r = ground (arith, r.attempts key.runtime_id)

  decide_keys :
      Represents d accepted
      → (decide d key current).1.seen_identity_keys
        ≡ remember (verdict accepted key current) key accepted
  unfolding decide
  decide_keys r = ground (arith, r.attempts key.runtime_id)

  decide_attempts :
      Represents d accepted
      → (rid : Text)
      → get rid (decide d key current).1.latest_attempt_by_runtime
        ≡ last_attempt rid (remember (verdict accepted key current) key accepted)
  unfolding decide
  decide_attempts r rid =
      let latest = or_default (get key.runtime_id d.latest_attempt_by_runtime) current in
      ground (
        arith,
        r.attempts key.runtime_id,
        r.attempts rid,
        get-put key.runtime_id rid (max key.launch_attempt latest) d.latest_attempt_by_runtime,
      )

-- One call of `decide` gives the verdict that the specification draws from the accepted keys, and
-- its tables then represent those keys, with the new one added if it was accepted.
pub decide-Represents :
    (d : LifecycleSignalDedupe) (accepted : List EventKey) (key : EventKey) (current : ℕ)
    → Represents d accepted
    → ((decide d key current).0 ≡ verdict accepted key current)
      × Represents (decide d key current).1 (remember (verdict accepted key current) key accepted)
decide-Represents d accepted key current r = (
  decide-verdict d accepted key current r,
  record {
    keys = decide_keys d accepted key current r;
    attempts = decide_attempts d accepted key current r;
  },
)

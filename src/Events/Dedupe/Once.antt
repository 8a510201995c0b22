-- ===== src/Events/Dedupe/Once.antt =====
-- What an accepted event rules out for every later call, whatever happens in between.
use swr_ddd.Common.{ℕ, ◌≤◌, ◌<◌, ◌≡◌, ◌≢◌, true, Option, none, some, List, [], ◌∷◌, arith, max}
use swr_ddd.Common.Text.{text_eq_iff, text_eq_refl}
use swr_ddd.Common.Dict.{get, get-put}
use swr_ddd.Events.Dedupe.{
  accept, drop_stale_attempt, EventKey, key_eq, seen_before, LifecycleSignalDedupe, decide,
  or_default,
}

-- the state after a sequence of calls, each an event and the attempt current at that time
pub after : LifecycleSignalDedupe → List (EventKey × ℕ) → LifecycleSignalDedupe
after d [] = d
after d ((key, current) ∷ calls) = after (decide d key current).1 calls

key_eq_refl : (k : EventKey) → key_eq k k ≡ true
unfolding key_eq
key_eq_refl k = ground (
  arith,
  text_eq_refl k.runtime_id,
  text_eq_refl k.event_family,
  text_eq_refl k.event_name,
  text_eq_refl k.identity_key,
)

-- the option holds a number that is `n` or more
abbrev AtLeast : ℕ → Option ℕ → Type 0
AtLeast n none = ⊥
AtLeast n (some m) = n ≤ m

-- What an accepted key leaves behind: it is among the keys, and its runtime's attempt is at least
-- the key's.
record Remembers (key : EventKey) (d : LifecycleSignalDedupe) : Type 0 where
  seen : seen_before key d.seen_identity_keys ≡ true
  attempt : AtLeast key.launch_attempt (get key.runtime_id d.latest_attempt_by_runtime)

module _ (key : EventKey) (d : LifecycleSignalDedupe) where
  accept_seen :
      (current : ℕ)
      → (decide d key current).0 ≡ accept
      → seen_before key (decide d key current).1.seen_identity_keys ≡ true
  unfolding decide seen_before
  accept_seen current h = ground (arith, key_eq_refl key)

  abbrev latest_of : ℕ → ℕ
  latest_of current = or_default (get key.runtime_id d.latest_attempt_by_runtime) current

  accept_attempt :
      (current : ℕ)
      → (decide d key current).0 ≡ accept
      → AtLeast key.launch_attempt
          (get key.runtime_id (decide d key current).1.latest_attempt_by_runtime)
  unfolding decide
  accept_attempt current h = ground (
    arith,
    text_eq_refl key.runtime_id,
    get-put key.runtime_id key.runtime_id (max key.launch_attempt (latest_of current))
        d.latest_attempt_by_runtime,
  )

  accept-Remembers :
      (current : ℕ) → (decide d key current).0 ≡ accept → Remembers key (decide d key current).1
  accept-Remembers current h = record {
    seen = accept_seen current h;
    attempt = accept_attempt current h;
  }

  keeps_seen :
      (other : EventKey) (current : ℕ)
      → seen_before key d.seen_identity_keys ≡ true
      → seen_before key (decide d other current).1.seen_identity_keys ≡ true
  unfolding decide seen_before
  keeps_seen other current h = ground arith

  keeps_attempt :
      (other : EventKey) (current : ℕ)
      → AtLeast key.launch_attempt (get key.runtime_id d.latest_attempt_by_runtime)
      → AtLeast key.launch_attempt
          (get key.runtime_id (decide d other current).1.latest_attempt_by_runtime)
  unfolding decide
  keeps_attempt other current le =
      let latest = or_default (get other.runtime_id d.latest_attempt_by_runtime) current in
      ground (
        arith,
        text_eq_iff other.runtime_id key.runtime_id,
        get-put other.runtime_id key.runtime_id (max other.launch_attempt latest)
            d.latest_attempt_by_runtime,
      )

  decide-Remembers :
      (other : EventKey) (current : ℕ) → Remembers key d → Remembers key (decide d other current).1
  decide-Remembers other current r = record {
    seen = keeps_seen other current r.seen;
    attempt = keeps_attempt other current r.attempt;
  }

  seen_not_accepted : (current : ℕ) → Remembers key d → (decide d key current).0 ≢ accept
  unfolding decide
  seen_not_accepted current r h = let s = r.seen in ground arith

  older_is_stale :
      (other : EventKey) (current : ℕ)
      → Remembers key d
      → other.runtime_id ≡ key.runtime_id
      → other.launch_attempt < key.launch_attempt
      → (decide d other current).0 ≡ drop_stale_attempt
  unfolding decide
  older_is_stale other current r same lt = let a = r.attempt in rw same (ground arith)

after-Remembers :
    (key : EventKey) (d : LifecycleSignalDedupe) (calls : List (EventKey × ℕ))
    → Remembers key d
    → Remembers key (after d calls)
unfolding after
after-Remembers key d [] r = r
after-Remembers key d ((other, current) ∷ calls) r =
    after-Remembers key (decide d other current).1 calls (decide-Remembers key d other current r)

module _ (d : LifecycleSignalDedupe) (key : EventKey) (current : ℕ)
    (accepted : (decide d key current).0 ≡ accept) (calls : List (EventKey × ℕ)) where
  remembered : Remembers key (after (decide d key current).1 calls)
  remembered =
      after-Remembers key (decide d key current).1 calls (accept-Remembers key d current accepted)

  -- An event that was accepted is not accepted again, whatever calls came in between and whatever
  -- attempt is then current.
  pub accepted_once :
      (later : ℕ) → (decide (after (decide d key current).1 calls) key later).0 ≢ accept
  accepted_once later =
      seen_not_accepted key (after (decide d key current).1 calls) later remembered

  -- Once an event of an attempt was accepted, every later event of the same runtime with a smaller
  -- attempt is dropped as stale, whatever calls came in between.
  pub older_attempt_dropped :
      (other : EventKey) (later : ℕ)
      → other.runtime_id ≡ key.runtime_id
      → other.launch_attempt < key.launch_attempt
      → (decide (after (decide d key current).1 calls) other later).0 ≡ drop_stale_attempt
  older_attempt_dropped other later =
      older_is_stale key (after (decide d key current).1 calls) other later remembered

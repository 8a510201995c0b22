-- ===== src/Strategy/Handed.antt =====
-- Which hooks the events of a run reach, whatever raises.
use swr_ddd.Common.{
  ◌≡◌, refl, ℕ, ◌+◌, Bool, true, false, not, ◌&&◌, none, List, [], ◌∷◌, ◌++◌, ◌==◌, arith, Outcome,
  returned, raised, NoneType, did_return, if◌then◌else◌,
}
use swr_ddd.Strategy.{
  StrategyExn, ok_result, invoke, Hook, bind_context, initialize, initialize_with_context, on_start,
  on_stop, stop_hook, on_bar, on_quote, on_tick, on_timer, on_event_hook, EventKind, market_bar,
  market_quote, market_tick, wire_timer, other_event, Strategy, StrategyAdapter, Answers, Result,
  Bridge, is_other, hook_of, call_hook, call_bridge, dispatch, on_event,
}

-- one call of `on_event`: what the mapper, the bridge and the hooks do then
pub record Arrival : Type 0 where
  pub mapped : Outcome StrategyExn EventKind
  pub bridge : Bridge
  pub answer : Answers

abbrev hook_index : Hook → ℕ
hook_index bind_context = 0
hook_index initialize = 1
hook_index initialize_with_context = 2
hook_index on_start = 3
hook_index on_stop = 4
hook_index stop_hook = 5
hook_index on_bar = 6
hook_index on_quote = 7
hook_index on_tick = 8
hook_index on_timer = 9
hook_index on_event_hook = 10

-- how often a hook was called
abbrev pub calls_of : Hook → List Hook → ℕ
calls_of h [] = 0
calls_of h (k ∷ hs) = (if hook_index k == hook_index h then 1 else 0) + calls_of h hs

calls_of-append :
    (h : Hook) (hs ks : List Hook) → calls_of h (hs ++ ks) ≡ calls_of h hs + calls_of h ks
calls_of-append h [] ks = omega arith
calls_of-append h (k ∷ hs) ks = ground (arith, calls_of-append h hs ks)

abbrev pub failures_in : List Result → ℕ
failures_in [] = 0
failures_in (r ∷ rs) = (if r.ok then 0 else 1) + failures_in rs

-- the arrivals that pass a test
abbrev pub how_many : (Arrival → Bool) → List Arrival → ℕ
how_many test [] = 0
how_many test (e ∷ es) = (if test e then 1 else 0) + how_many test es

module _ (s : Strategy) where
  abbrev after_one :
      Result × StrategyAdapter
      → (StrategyAdapter → List Result × StrategyAdapter)
      → List Result × StrategyAdapter
  after_one (r, b) rest = let (rs, z) = rest b in (r ∷ rs, z)

  -- the events of a run are handed over one after the other
  abbrev pub on_events : List Arrival → StrategyAdapter → List Result × StrategyAdapter
  on_events [] a = ([], a)
  on_events (e ∷ es) a = after_one (on_event s e.answer e.bridge e.mapped a) (λ b. on_events es b)

  -- a kind of event that has a hook of its own, which a bridge can call
  abbrev pub has_own_hook : EventKind → Bool
  has_own_hook other_event = false
  has_own_hook kind = s.has_bridge && s.overrides kind

  abbrev kind_reaches : Hook → Bridge → EventKind → Bool
  kind_reaches h bridge kind =
      if has_own_hook kind
      then did_return (bridge kind) && (hook_index (hook_of kind) == hook_index h)
      else s.has_on_event && (hook_index h == hook_index on_event_hook)

  abbrev reaches_of : Hook → Bridge → Outcome StrategyExn EventKind → Bool
  reaches_of h bridge (raised x) = false
  reaches_of h bridge (returned kind) = kind_reaches h bridge kind

  abbrev wrong_of : Answers → Bridge → Outcome StrategyExn EventKind → Bool
  wrong_of answer bridge (raised x) = true
  wrong_of answer bridge (returned kind) =
      if has_own_hook kind
      then not (did_return (bridge kind) && did_return (answer (hook_of kind)))
      else s.has_on_event && not (did_return (answer on_event_hook))

  -- The event reaches the hook: it was mapped, and the hook is that of its kind, which the bridge
  -- went on to call, or the kind has none of its own and the hook is `on_event`.
  abbrev pub reaches : Hook → Arrival → Bool
  reaches h e = reaches_of h e.bridge e.mapped

  -- The mapper raised, or the bridge, or the hook that the event reached.
  abbrev pub goes_wrong : Arrival → Bool
  goes_wrong e = wrong_of e.answer e.bridge e.mapped

  -- one call: whether it reached the hook, and whether something raised
  record Goes (h : Hook) (a : StrategyAdapter) (reached wrong : Bool) (p : Result × StrategyAdapter)
      : Type 0 where
    calls : calls_of h (p.1.called) ≡ calls_of h a.called + (if reached then 1 else 0)
    ok : p.0.ok ≡ not wrong

  invoke_ok : (o : Outcome StrategyExn NoneType) → (invoke false o).ok ≡ not (not (did_return o))
  unfolding invoke
  invoke_ok (returned v) = refl
  invoke_ok (raised e) = refl

  module _ (answer : Answers) (h : Hook) (a : StrategyAdapter) where
    call_hook-Goes :
        (k : Hook)
        → Goes h a
            (hook_index k == hook_index h)
            (not (did_return (answer k)))
            (call_hook s answer false k a)
    unfolding call_hook
    call_hook-Goes k = record {
      calls = ground (arith, calls_of-append h a.called (k ∷ []));
      ok = invoke_ok (answer k);
    }

    quiet-Goes : Goes h a false false (ok_result none, a)
    quiet-Goes = record { calls = omega arith; ok = refl }

    raised-Goes : (e : StrategyExn) → Goes h a false true (invoke false (raised e), a)
    unfolding invoke
    raised-Goes e = record { calls = omega arith; ok = refl }

    call_bridge-Goes :
        (o : Outcome StrategyExn NoneType) (k : Hook)
        → Goes h a
            (did_return o && (hook_index k == hook_index h))
            (not (did_return o && did_return (answer k)))
            (call_bridge s answer o k a)
    call_bridge-Goes (returned u) k = call_hook-Goes k
    call_bridge-Goes (raised e) k = raised-Goes e

    own_hook :
        (kind : EventKind)
        → ((s.has_bridge && not (is_other kind)) && s.overrides kind) ≡ has_own_hook kind
    own_hook market_bar = ground arith
    own_hook market_quote = ground arith
    own_hook market_tick = ground arith
    own_hook wire_timer = ground arith
    own_hook other_event = ground arith

    index_sym : (m n : ℕ) → (m == n) ≡ (n == m)
    index_sym m n = ground arith

    on_event_hook-Goes :
        (b : Bool)
        → Goes h a
            (b && (hook_index h == hook_index on_event_hook))
            (b && not (did_return (answer on_event_hook)))
            (if not b then (ok_result none, a) else call_hook s answer false on_event_hook a)
    on_event_hook-Goes true = rw (index_sym (hook_index h) 10) (call_hook-Goes on_event_hook)
    on_event_hook-Goes false = quiet-Goes

    dispatched-Goes :
        (b : Bool) (bridge : Bridge) (kind : EventKind)
        → Goes h a
            (if b
              then did_return (bridge kind) && (hook_index (hook_of kind) == hook_index h)
              else s.has_on_event && (hook_index h == hook_index on_event_hook))
            (if b
              then not (did_return (bridge kind) && did_return (answer (hook_of kind)))
              else s.has_on_event && not (did_return (answer on_event_hook)))
            (if b
              then call_bridge s answer (bridge kind) (hook_of kind) a
              else if not s.has_on_event
              then (ok_result none, a)
              else call_hook s answer false on_event_hook a)
    dispatched-Goes true bridge kind = call_bridge-Goes (bridge kind) (hook_of kind)
    dispatched-Goes false bridge kind = on_event_hook-Goes s.has_on_event

    on_event-Goes :
        (bridge : Bridge) (mapped : Outcome StrategyExn EventKind)
        → Goes h a
            (reaches_of h bridge mapped)
            (wrong_of answer bridge mapped)
            (on_event s answer bridge mapped a)
    unfolding on_event dispatch
    on_event-Goes bridge (returned kind) =
        rw (own_hook kind) (dispatched-Goes (has_own_hook kind) bridge kind)
    on_event-Goes bridge (raised e) = raised-Goes e

  -- Over any run of events, whatever the mapper, the bridge and the hooks raise on the way, every
  -- hook is called once for each event that reaches it and no more: an event reaches the hook of its
  -- kind, unless the bridge raises first, if a bridge is there and the strategy overrides the hook,
  -- and otherwise `on_event`, if there is one. The results that are not well are as many as the
  -- events whose mapper, bridge or reached hook raised.
  pub on_events_reach :
      (es : List Arrival) (a : StrategyAdapter) (h : Hook)
      → (calls_of h ((on_events es a).1.called) ≡ calls_of h a.called + how_many (reaches h) es)
        × (failures_in ((on_events es a).0) ≡ how_many goes_wrong es)
  on_events_reach [] a h = (omega arith, refl)
  on_events_reach (e ∷ es) a h =
      let one = on_event-Goes e.answer h a e.bridge e.mapped in
      let (calls, failures) = on_events_reach es (on_event s e.answer e.bridge e.mapped a).1 h in
      (ground (arith, one.calls, calls), ground (arith, one.ok, failures))

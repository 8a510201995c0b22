-- ===== src/Strategy/Adapter.antt =====
-- `StrategyAdapter`. What the strategy object offers is a record of flags, and its hooks answer as a
-- parameter says; every hook that is called goes on a list.
use swr_ddd.Common.{
  Bool, true, false, not, ◌&&◌, none, List, [], ◌∷◌, ◌++◌, Outcome, returned, raised, NoneType,
  if◌then◌else◌,
}
use swr_ddd.Strategy.Boundary.{StrategyExn, StrategyCallResult, ok_result, invoke}

pub data Hook : Type 0 where
  bind_context initialize initialize_with_context on_start on_stop stop_hook : Hook
  on_bar on_quote on_tick on_timer on_event_hook : Hook

-- the kinds of mapped events that have a hook of their own, and the rest
pub data EventKind : Type 0 where
  market_bar market_quote market_tick wire_timer other_event : EventKind

pub record Strategy : Type 0 where
  pub is_sdk : Bool
  pub has_bridge : Bool
  pub has_bind_context : Bool
  pub has_initialize : Bool
  -- the legacy `initialize` has a positional parameter
  pub takes_context : Bool
  pub has_on_start : Bool
  pub has_stop : Bool
  pub has_on_event : Bool
  -- the hook is callable and overridden
  pub overrides : EventKind → Bool

pub record StrategyAdapter : Type 0 where
  pub lifecycle_started : Bool
  pub called : List Hook

abbrev pub Answers : Type 0
Answers = Hook → Outcome StrategyExn NoneType

abbrev pub Result : Type 0
Result = StrategyCallResult NoneType

abbrev pub is_other : EventKind → Bool
is_other other_event = true
is_other _ = false

-- what `dispatch_on_bar` and its siblings do before they call the hook: the replay's own state is
-- advanced, which can raise
abbrev pub Bridge : Type 0
Bridge = EventKind → Outcome StrategyExn NoneType

-- the hook of a kind of event
abbrev pub hook_of : EventKind → Hook
hook_of market_bar = on_bar
hook_of market_quote = on_quote
hook_of market_tick = on_tick
hook_of wire_timer = on_timer
hook_of other_event = on_event_hook

module _ (s : Strategy) (answer : Answers) where
  -- `self._boundary.call(..., hook)`
  unfoldable pub call_hook : Bool → Hook → StrategyAdapter → Result × StrategyAdapter
  call_hook is_cleanup h a =
      (invoke is_cleanup (answer h), record a { called = a.called ++ (h ∷ []) })

  -- `_legacy_initialize`
  unfoldable pub legacy_initialize : StrategyAdapter → Result × StrategyAdapter
  legacy_initialize a =
      if not s.has_initialize
      then (ok_result none, a)
      else call_hook false (if s.takes_context then initialize_with_context else initialize) a

  -- the last part of `bind_and_start`
  unfoldable pub start_strategy : StrategyAdapter → Result × StrategyAdapter
  start_strategy a =
      if not s.has_on_start
      then (ok_result none, record a { lifecycle_started = true })
      else (let (r, b) = call_hook false on_start a in
          if r.ok then (ok_result none, record b { lifecycle_started = true }) else (r, b))

  abbrev pub started_after : Result × StrategyAdapter → Result × StrategyAdapter
  started_after (r, b) = if r.ok then start_strategy b else (r, b)

  abbrev pub bound :
      Outcome StrategyExn NoneType
      → StrategyAdapter
      → Outcome StrategyExn (Result × StrategyAdapter)
  bound (returned u) a = returned (started_after (call_hook false initialize a))
  bound (raised e) a = raised e

  -- `bind_and_start`; `_bind_context` is called outside of the boundary
  unfoldable pub bind_and_start : StrategyAdapter → Outcome StrategyExn (Result × StrategyAdapter)
  bind_and_start a =
      if a.lifecycle_started
      then returned (ok_result none, a)
      else if not s.is_sdk
      then returned (started_after (legacy_initialize a))
      else if s.has_bridge && s.has_bind_context
      then bound (answer bind_context) (record a { called = a.called ++ (bind_context ∷ []) })
      else returned (started_after (call_hook false initialize a))

  -- `self._boundary.call(..., bridge.dispatch_on_...)`, which raises or calls the hook
  abbrev pub call_bridge :
      Outcome StrategyExn NoneType → Hook → StrategyAdapter → Result × StrategyAdapter
  call_bridge (returned u) h a = call_hook false h a
  call_bridge (raised e) h a = (invoke false (raised e), a)

  -- the part of `on_event` after the event was mapped
  unfoldable pub dispatch : Bridge → EventKind → StrategyAdapter → Result × StrategyAdapter
  dispatch bridge kind a =
      if (s.has_bridge && not (is_other kind)) && s.overrides kind
      then call_bridge (bridge kind) (hook_of kind) a
      else if not s.has_on_event
      then (ok_result none, a)
      else call_hook false on_event_hook a

  -- `on_event`, of an event that the mapper maps or raises on
  unfoldable pub on_event :
      Bridge → Outcome StrategyExn EventKind → StrategyAdapter → Result × StrategyAdapter
  on_event bridge (returned kind) a = dispatch bridge kind a
  on_event bridge (raised e) a = (invoke false (raised e), a)

  unfoldable pub stop_adapter : StrategyAdapter → Result × StrategyAdapter
  stop_adapter a =
      if s.is_sdk
      then call_hook true on_stop a
      else if not s.has_stop
      then (ok_result none, a)
      else call_hook true stop_hook a

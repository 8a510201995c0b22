-- ===== src/Strategy/Tests.antt =====
-- The theorems on the strategy at an SDK strategy whose bar hook raises.
use swr_ddd.Common.{
  ◌≡◌, ◌≤◌, ◌+◌, refl, true, false, none, some, List, [], ◌∷◌, returned, raised, Outcome,
}
use swr_ddd.Common.Text.{codes}
use swr_ddd.Mode.{paper}
use swr_ddd.Strategy.{
  StrategyExn, other_exception, Strategy, StrategyAdapter, market_bar, Answers, Result, ok_result,
  bind_and_start, on_bar, StrategyAssignmentKey, call_hook, invoke, start_strategy,
}
use swr_ddd.Strategy.Handed.{
  Arrival, calls_of, failures_in, how_many, on_events, reaches, goes_wrong, on_events_reach,
}
use swr_ddd.Strategy.Single.{
  Step, creates, stops, take_steps, stops_in, no_instance, one_instance_per_stop,
}

abbrev sdk_strategy : Strategy
sdk_strategy = record {
  is_sdk = true;
  has_bridge = true;
  has_bind_context = true;
  has_initialize = true;
  takes_context = false;
  has_on_start = true;
  has_stop = true;
  has_on_event = true;
  overrides = λ k. true;
}

abbrev bars_raise : Answers
bars_raise on_bar = raised other_exception
bars_raise _ = returned tt

abbrev fresh_adapter : StrategyAdapter
fresh_adapter = record { lifecycle_started = false; called = [] }

-- a bar, a text that the mapper refuses, and another bar
abbrev bars : List Arrival
bars =
    record { mapped = returned market_bar; bridge = λ k. returned tt; answer = bars_raise }
    ∷ record { mapped = raised other_exception; bridge = λ k. returned tt; answer = bars_raise }
    ∷ record { mapped = returned market_bar; bridge = λ k. returned tt; answer = bars_raise }
    ∷ []

on_events_example :
    (calls_of on_bar ((on_events sdk_strategy bars fresh_adapter).1.called)
      ≡ calls_of on_bar fresh_adapter.called + how_many (reaches sdk_strategy on_bar) bars)
    × (failures_in ((on_events sdk_strategy bars fresh_adapter).0)
        ≡ how_many (goes_wrong sdk_strategy) bars)
on_events_example = on_events_reach sdk_strategy bars fresh_adapter on_bar

reached_twice : how_many (reaches sdk_strategy on_bar) bars ≡ 2
reached_twice = refl

abbrev bound_adapter : Outcome StrategyExn (Result × StrategyAdapter)
bound_adapter = bind_and_start sdk_strategy bars_raise fresh_adapter

abbrev adapter_of : Outcome StrategyExn (Result × StrategyAdapter) → StrategyAdapter
adapter_of (returned p) = p.1
adapter_of (raised e) = fresh_adapter

well_bound : bound_adapter ≡ returned (ok_result none, adapter_of bound_adapter)
unfolding bind_and_start call_hook invoke start_strategy
well_bound = refl

abbrev assignment : StrategyAssignmentKey
assignment = record {
  runtime_id = codes "rt-1";
  strategy_version_id = codes "sv-1";
  tenant_id = codes "";
  mode = paper;
  launch_attempt = 1;
  validated_parameter_identity = none;
  trader_id = some (codes "t");
  account_id = none;
}

abbrev create_stop_create : List Step
create_stop_create =
    creates assignment (returned 7)
    ∷ stops (raised other_exception)
    ∷ creates assignment (returned 8)
    ∷ []

one_instance_example :
    (take_steps no_instance create_stop_create).made ≤ 1 + stops_in create_stop_create
one_instance_example = one_instance_per_stop create_stop_create

-- ===== src/Lifecycle/Feeds.antt =====
-- Which ingress feeds a run starts: each only in the modes that it is for.
use swr_ddd.Common.{
  ◌≡◌, false, not, ◌&&◌, Option, none, some, arith, NoneType, Outcome, returned, raised,
}
use swr_ddd.Common.Text.{Text}
use swr_ddd.Mode.{is_backtest, is_paper_or_live}
use swr_ddd.Phase.{WorkerPhase}
use swr_ddd.Lifecycle.{
  Config, World, Service, Exec, Call, Error, Exn, StartupStep, call, set_phase, record_startup_step,
  emit_periodic_heartbeat, bring_up, go_live, guarded, handle, raise_some,
  initialize_strategy_coordinator, bind_strategy, fail_start, start, rollback_partial_startup,
  dependencies_for_rollback, signal_failure, stop_strategy_instance, close_clients,
  wants_historical, wants_market_data, wants_portfolio, run_started, run,
  maybe_start_historical_backtest_driver, maybe_start_live_market_data_feed,
  maybe_start_portfolio_update_feed, ◌>>=◌,
}
use swr_ddd.Lifecycle.Logic.{Keeps, keeps_rules, IsQuiet, Keeps-call}
use swr_ddd.Lifecycle.Keeping.{set_phase_keeps, close_from_keeps}
use swr_ddd.Lifecycle.Started.{startup_step_keeps, heartbeat_keeps}

-- The historical feed is started in BACKTEST only, the two Redis feeds in PAPER and LIVE only.
abbrev pub FollowsMode : Config → Service → Type 0
FollowsMode c s =
    ((s.historical_feed.feed_started && not (is_backtest c.mode)) ≡ false)
    × (((s.live_feed.feed_started && not (is_paper_or_live c.mode)) ≡ false)
        × ((s.portfolio_feed.feed_started && not (is_paper_or_live c.mode)) ≡ false))

module _ (c : Config) (w : World) where
  quiet : IsQuiet (FollowsMode c)
  quiet = record { trace = λ s t h. h }

  called : (k : Call) → Keeps (FollowsMode c) (call w k)
  called = Keeps-call quiet w

  moved : (p : WorkerPhase) (reason : Option Text) → Keeps (FollowsMode c) (set_phase c w p reason)
  moved p reason = set_phase_keeps quiet c w p reason (λ s h. h)

  stepped : (k : StartupStep) → Keeps (FollowsMode c) (record_startup_step c w k)
  stepped = startup_step_keeps quiet c w (λ s t h. h)

  beats : Keeps (FollowsMode c) (emit_periodic_heartbeat c w)
  beats = heartbeat_keeps quiet c w

  raise_some_follows : (o : Option Exn) → Keeps (FollowsMode c) (raise_some c w o)
  raise_some_follows none = search keeps_rules
  raise_some_follows (some e) = search keeps_rules

  bring_up_follows : Keeps (FollowsMode c) (bring_up c w)
  unfolding bring_up initialize_strategy_coordinator bind_strategy
  bring_up_follows = search (keeps_rules, called, stepped, raise_some_follows) depth 60

  go_live_follows : Keeps (FollowsMode c) (go_live c w)
  unfolding go_live
  go_live_follows = search (keeps_rules, called, stepped, moved, beats) depth 40

  closes : Keeps (FollowsMode c) (close_clients c w)
  unfolding close_clients
  closes = close_from_keeps quiet c w 0 c.closeables

  rollback_follows : (error : Error) → Keeps (FollowsMode c) (rollback_partial_startup c w error)
  unfolding rollback_partial_startup dependencies_for_rollback signal_failure stop_strategy_instance
  rollback_follows error = search (keeps_rules, called, closes) depth 30

  fail_start_follows : (error : Error) → Keeps (FollowsMode c) (fail_start c w error)
  unfolding fail_start
  fail_start_follows error = search (keeps_rules, moved, rollback_follows) depth 10

  handled_follows :
      (r : Outcome Error NoneType) (s : Service)
      → FollowsMode c s
      → FollowsMode c (handle c w r s).1
  handled_follows (returned a) s h = h
  handled_follows (raised e) s h = (fail_start_follows e).at s h

  guarded_follows :
      (m : Exec NoneType) → Keeps (FollowsMode c) m → Keeps (FollowsMode c) (guarded c w m)
  unfolding guarded
  guarded_follows m k = record { at = λ s h. handled_follows (m s).0 (m s).1 (k.at s h) }

  start_follows : Keeps (FollowsMode c) (start c w)
  unfolding start
  start_follows = search (keeps_rules, guarded_follows, bring_up_follows, go_live_follows) depth 20

  historical_follows : Keeps (FollowsMode c) (maybe_start_historical_backtest_driver c w)
  unfolding maybe_start_historical_backtest_driver ◌>>=◌ wants_historical call
  historical_follows = record { at = λ s h. ground arith }

  live_follows : Keeps (FollowsMode c) (maybe_start_live_market_data_feed c w)
  unfolding maybe_start_live_market_data_feed ◌>>=◌ wants_market_data call
  live_follows = record { at = λ s h. ground arith }

  portfolio_follows : Keeps (FollowsMode c) (maybe_start_portfolio_update_feed c w)
  unfolding maybe_start_portfolio_update_feed ◌>>=◌ wants_portfolio call
  portfolio_follows = record { at = λ s h. ground arith }

  run_keeps : Keeps (FollowsMode c) (run c w)
  unfolding run run_started
  run_keeps =
      search
        (
          keeps_rules, start_follows, moved, beats, historical_follows, live_follows,
          portfolio_follows,
        )
        depth 30

-- A `run` of a worker whose feeds follow its mode leaves them so, whether it returns or raises: the
-- historical feed is started in BACKTEST only, the market data and portfolio feeds in PAPER and
-- LIVE only.
pub run_follows_mode :
    (c : Config) (w : World) (s : Service) → FollowsMode c s → FollowsMode c (run c w s).1
run_follows_mode c w s h = (run_keeps c w).at s h

-- ===== src/Lifecycle/Returning.antt =====
-- A stop returns when no call of it raises.
use swr_ddd.Common.{ℕ, ◌+◌, ◌≡◌, Bool, true, false, Option, List, [], ◌∷◌, returned}
use swr_ddd.Common.Text.{Text}
use swr_ddd.Phase.{WorkerPhase}
use swr_ddd.Lifecycle.{
  Config, World, Service, ShutdownStep, set_phase, record_shutdown_step, stop, stop_ingress,
  tear_down, finish_stop, stop_strategy_instance, close_clients, close_from, report_failed,
  report_final_shutdown_to_srm, stop_live_market_data_feed_worker,
  stop_portfolio_update_feed_worker, stop_historical_backtest_feed_worker, ◌>>=◌, ◌>>◌,
  resolve_stop,
}
use swr_ddd.Lifecycle.Logic.{otherwise}
use swr_ddd.Lifecycle.Total.{IsCalm, Total, total_rules, Returns, Returns-later, Returns-pure}

module _ (c : Config) (w : World) (calm : IsCalm w) where
  close_from-Total : (i : ℕ) (closes : List Bool) → Total (close_from c w i closes)
  unfolding close_from
  close_from-Total i [] = search total_rules
  close_from-Total i (b ∷ bs) =
      let rest = close_from-Total (i + 1) bs in search (total_rules) depth 8

  step-Total : (k : ShutdownStep) → Total (record_shutdown_step c w k)
  unfolding record_shutdown_step
  step-Total k = search (total_rules) depth 8

  pub set_phase-Total : (p : WorkerPhase) (reason : Option Text) → Total (set_phase c w p reason)
  unfolding set_phase report_failed
  set_phase-Total p reason = search (total_rules) depth 10

  stop_ingress-Total : Total (stop_ingress c w)
  unfolding stop_ingress stop_live_market_data_feed_worker stop_portfolio_update_feed_worker
      stop_historical_backtest_feed_worker
  stop_ingress-Total = search (total_rules, step-Total) depth 30

  tear_down-Total : Total (tear_down c w)
  unfolding tear_down close_clients stop_strategy_instance
  tear_down-Total = search (total_rules, step-Total, set_phase-Total, close_from-Total) depth 40

  finish-Returns :
      (emit : Bool) (code : Option Text) (reason : Text) (message : Option Text)
      → Returns true (finish_stop c w emit code reason message)
  unfolding finish_stop report_final_shutdown_to_srm
  finish-Returns emit code reason message =
      search (Returns-later, Returns-pure, total_rules, step-Total, set_phase-Total) depth 30

  stop_body-Returns :
      (emit : Bool) (code : Option Text) (reason : Text) (message : Option Text)
      → Returns true
          (stop_ingress c w >> (tear_down c w >> finish_stop c w emit code reason message))
  stop_body-Returns emit code reason message =
      search (Returns-later, stop_ingress-Total, tear_down-Total, finish-Returns) depth 10

  -- When no call raises, a `stop` of a worker that is not yet down returns `True`.
  pub stop_returns :
      (emit : Bool) (code message : Option Text) (s : Service)
      → s.shutdown_complete ≡ false
      → (stop c w emit code message s).0 ≡ returned true
  unfolding stop ◌>>=◌
  stop_returns emit code message s h =
      let resolved = resolve_stop s code message in
      otherwise (λ r. r.0 ≡ returned true) s.shutdown_complete _ _ s h
        ((stop_body-Returns emit code resolved.0 resolved.1).at s)

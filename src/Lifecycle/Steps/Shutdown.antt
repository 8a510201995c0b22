-- ===== src/Lifecycle/Steps/Shutdown.antt =====
-- The order of the nine steps of `stop`.
use swr_ddd.Common.{◌≡◌, refl, Bool, false, Option, none, List, [], ◌∷◌, ◌++◌}
use swr_ddd.Common.Text.{Text}
use swr_ddd.Phase.{WorkerPhase}
use swr_ddd.Lifecycle.State.{
  Config, World, Service, Call, ShutdownStep, stop_live_market_data_redis_feed,
  stop_portfolio_update_redis_feed, stop_historical_backtest_feed, stop_heartbeat_periodic_jobs,
  stop_accepting_new_work, stop_strategy_loop, flush_diagnostics, close_downstream_clients,
  emit_worker_shutdown_signal, modify, call, ◌>>=◌, ◌>>◌,
}
use swr_ddd.Lifecycle.{
  record_shutdown_step, stop, stop_ingress, tear_down, finish_stop, set_phase,
  stop_live_market_data_feed_worker, stop_portfolio_update_feed_worker, resolve_stop,
  stop_historical_backtest_feed_worker, stop_strategy_instance, close_clients,
  report_final_shutdown_to_srm,
}
use swr_ddd.Lifecycle.Logic.{Keeps, keeps_rules, IsQuiet, Keeps-call, OnReturn, otherwise}
use swr_ddd.Lifecycle.Keeping.{set_phase_keeps, close_from_keeps, report_final_keeps}
use swr_ddd.Lifecycle.Steps.{Appends, Appends-nothing, Appends-bind, Appends-step, Appends-later}

-- the steps of a stop, in the order in which it records them
abbrev pub ingress_steps : List ShutdownStep
ingress_steps =
    stop_live_market_data_redis_feed ∷ stop_portfolio_update_redis_feed
    ∷ stop_historical_backtest_feed ∷ []

abbrev pub tear_down_steps : List ShutdownStep
tear_down_steps =
    stop_heartbeat_periodic_jobs ∷ stop_accepting_new_work ∷ stop_strategy_loop ∷ flush_diagnostics
    ∷ close_downstream_clients ∷ []

module _ (c : Config) (w : World) where
  steps_quiet : (ks : List ShutdownStep) → IsQuiet (λ s. s.shutdown_steps ≡ ks)
  steps_quiet ks = record { trace = λ s t h. h }

  called_silent :
      (ks : List ShutdownStep) → (k : Call) → Keeps (λ s. s.shutdown_steps ≡ ks) (call w k)
  called_silent ks k = Keeps-call (steps_quiet ks) w k

  step-Appends :
      (k : ShutdownStep) → Appends (λ s. s.shutdown_steps) (k ∷ []) (record_shutdown_step c w k)
  unfolding record_shutdown_step modify
  step-Appends k =
      Appends-bind _ (k ∷ []) [] _ _ (record { at = λ s. refl })
        (λ _. Appends-nothing _ _ (λ ks. search (keeps_rules, called_silent) depth 8))

  close_silent : (ks : List ShutdownStep) → Keeps (λ s. s.shutdown_steps ≡ ks) (close_clients c w)
  unfolding close_clients
  close_silent ks = close_from_keeps (steps_quiet ks) c w 0 c.closeables

  phase_silent :
      (ks : List ShutdownStep) (p : WorkerPhase)
      → Keeps (λ s. s.shutdown_steps ≡ ks) (set_phase c w p none)
  phase_silent ks p = set_phase_keeps (steps_quiet ks) c w p none (λ s h. h)

  report_silent :
      (ks : List ShutdownStep) (reason : Text) (message : Option Text)
      → Keeps (λ s. s.shutdown_steps ≡ ks) (report_final_shutdown_to_srm c w reason message)
  report_silent ks = report_final_keeps (steps_quiet ks) c w

  ingress-Appends : Appends (λ s. s.shutdown_steps) ingress_steps (stop_ingress c w)
  unfolding stop_ingress stop_live_market_data_feed_worker stop_portfolio_update_feed_worker
      stop_historical_backtest_feed_worker
  ingress-Appends =
      search
        (Appends-later, Appends-step, Appends-nothing, step-Appends, keeps_rules, called_silent)
        depth 40

  tear_down-Appends : Appends (λ s. s.shutdown_steps) tear_down_steps (tear_down c w)
  unfolding tear_down stop_strategy_instance
  tear_down-Appends =
      search
        (
          Appends-later, Appends-step, Appends-nothing, step-Appends, keeps_rules, called_silent,
          close_silent, phase_silent,
        )
        depth 40

  finish-Appends :
      (emit : Bool) (code : Option Text) (reason : Text) (message : Option Text)
      → Appends
          (λ s. s.shutdown_steps)
          (emit_worker_shutdown_signal ∷ [])
          (finish_stop c w emit code reason message)
  unfolding finish_stop
  finish-Appends emit code reason message =
      search
        (
          Appends-later, Appends-step, Appends-nothing, step-Appends, keeps_rules, called_silent,
          report_silent, phase_silent,
        )
        depth 40

  body-Appends :
      (emit : Bool) (code : Option Text) (reason : Text) (message : Option Text)
      → Appends
          (λ s. s.shutdown_steps)
          (ingress_steps ++ (tear_down_steps ++ (emit_worker_shutdown_signal ∷ [])))
          (stop_ingress c w >> (tear_down c w >> finish_stop c w emit code reason message))
  body-Appends emit code reason message =
      Appends-bind _ _ _ _ _ ingress-Appends (λ _.
        Appends-bind _ _ _ _ _ tear_down-Appends (λ _. finish-Appends emit code reason message))

-- A `stop` that returns has recorded its nine steps, once each and in their order: first the three
-- feeds, then the heartbeat jobs, the new work, the strategy, the diagnostics and the clients, and
-- the termination signal last.
pub stop_steps :
    (c : Config) (w : World) (emit : Bool) (code message : Option Text) (s : Service)
    → s.shutdown_complete ≡ false
    → OnReturn
        (λ t.
          t.shutdown_steps
          ≡ s.shutdown_steps
            ++ (ingress_steps ++ (tear_down_steps ++ (emit_worker_shutdown_signal ∷ []))))
        (stop c w emit code message s)
unfolding stop ◌>>=◌
stop_steps c w emit code message s h =
    let resolved = resolve_stop s code message in
    otherwise
      (OnReturn (λ t.
        t.shutdown_steps
        ≡ s.shutdown_steps
          ++ (ingress_steps ++ (tear_down_steps ++ (emit_worker_shutdown_signal ∷ [])))))
      s.shutdown_complete _ _ s h ((body-Appends c w emit code resolved.0 resolved.1).at s)

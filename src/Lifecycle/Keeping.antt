-- ===== src/Lifecycle/Keeping.antt =====
-- What the steps of `stop` keep.
use swr_ddd.Common.{
  ◌⊎◌, inl, inr, ℕ, ◌+◌, Bool, true, false, Option, none, some, List, [], ◌∷◌, ◌++◌,
}
use swr_ddd.Common.Text.{Text}
use swr_ddd.Phase.{WorkerPhase, stopping}
use swr_ddd.Lifecycle.{
  Config, World, Service, ShutdownStep, call, set_phase, record_shutdown_step, tear_down,
  stop_ingress, stop_strategy_instance, close_clients, close_from, report_failed,
  report_final_shutdown_to_srm, stop_live_market_data_feed_worker,
  stop_portfolio_update_feed_worker, stop_historical_backtest_feed_worker, ◌>>=◌,
  emit_srm_runtime_status, modify, when, journal_phase,
}
use swr_ddd.Lifecycle.Logic.{
  Keeps, Ensures, Leaves, keeps_rules, Ensures-here, Ensures-later, IsQuiet, Keeps-call,
  Leaves-here, Leaves-modify, Keeps-modify, Keeps-bind,
}

module _ {P : Service → Type 0} (q : IsQuiet P) (c : Config) (w : World) where
  pub step_keeps :
      ((s : Service) (t : List ShutdownStep) → P s → P (record s { shutdown_steps = t }))
      → (k : ShutdownStep) → Keeps P (record_shutdown_step c w k)
  unfolding record_shutdown_step
  step_keeps kept k =
      let called = Keeps-call q w in
      let recorded =
        Keeps-modify (λ s. record s { shutdown_steps = s.shutdown_steps ++ (k ∷ []) })
          (λ s h. kept s _ h) in
      search (keeps_rules) depth 8

  pub report_final_keeps :
      (reason : Text) (message : Option Text)
      → Keeps P (report_final_shutdown_to_srm c w reason message)
  unfolding report_final_shutdown_to_srm
  report_final_keeps reason message = let called = Keeps-call q w in search (keeps_rules) depth 8

  pub close_from_keeps : (i : ℕ) (closes : List Bool) → Keeps P (close_from c w i closes)
  unfolding close_from
  close_from_keeps i [] = search (keeps_rules) depth 8
  close_from_keeps i (b ∷ bs) =
      let rest = close_from_keeps (i + 1) bs in
      let called = Keeps-call q w in search (keeps_rules) depth 8

  pub report_failed_keeps :
      (p : WorkerPhase) (reason : Option Text) → Keeps P (report_failed c w p reason)
  unfolding report_failed emit_srm_runtime_status
  report_failed_keeps p reason = let called = Keeps-call q w in search (keeps_rules) depth 8

  pub set_phase-Leaves :
      (p : WorkerPhase) (reason : Option Text)
      → ((s : Service) → P (record s { phase = p }))
      → Leaves P (set_phase c w p reason)
  unfolding set_phase ◌>>=◌
  set_phase-Leaves p reason k =
      let called = Keeps-call q w in
      let failure = report_failed_keeps p reason in
      record {
        at = λ s.
            (Leaves-here (modify (λ t. record t { phase = p })) _ (Leaves-modify _ k) (λ _.
                Keeps-bind (report_failed c w p reason)
                  (λ _. when c.has_journal (call w (journal_phase (some s.phase) p reason))) failure
                  (λ _. search (keeps_rules) depth 8))).at
              s;
      }

  pub set_phase_keeps :
      (p : WorkerPhase) (reason : Option Text)
      → ((s : Service) → P s → P (record s { phase = p }))
      → Keeps P (set_phase c w p reason)
  unfolding set_phase
  set_phase_keeps p reason k =
      let called = Keeps-call q w in
      let failure = report_failed_keeps p reason in
      let changed = Keeps-modify (λ t. record t { phase = p }) k in search (keeps_rules) depth 10

-- A predicate that reads only what `tear_down` never undoes.
pub record IsKept (P : Service → Type 0) : Type 0 where
  pub is_quiet : IsQuiet P
  pub steps : (s : Service) (t : List ShutdownStep) → P s → P (record s { shutdown_steps = t })
  pub phase : (s : Service) (p : WorkerPhase) → P s → P (record s { phase = p })
  pub busy : (s : Service) → P s → P (record s { shutdown_in_progress = true })
  pub live :
      (s : Service) → P s → P (record s { live_feed = record s.live_feed { stop_set = true } })
  pub portfolio :
      (s : Service)
      → P s
      → P (record s { portfolio_feed = record s.portfolio_feed { stop_set = true } })
  pub historical :
      (s : Service)
      → P s
      → P (record s { historical_feed = record s.historical_feed { stop_set = true } })
  pub adapter : (s : Service) → P s → P (record s { has_adapter = false })

module _ {P : Service → Type 0} (k : IsKept P) (c : Config) (w : World) where
  pub live_keeps : Keeps P (stop_live_market_data_feed_worker c w)
  unfolding stop_live_market_data_feed_worker
  live_keeps =
      let called = Keeps-call k.is_quiet w in
      let changed =
        Keeps-modify (λ s. record s { live_feed = record s.live_feed { stop_set = true } })
          k.live in
      search (keeps_rules) depth 8

  pub portfolio_keeps : Keeps P (stop_portfolio_update_feed_worker c w)
  unfolding stop_portfolio_update_feed_worker
  portfolio_keeps =
      let called = Keeps-call k.is_quiet w in
      let changed =
        Keeps-modify
          (λ s. record s { portfolio_feed = record s.portfolio_feed { stop_set = true } })
          k.portfolio in
      search (keeps_rules) depth 8

  pub historical_keeps : Keeps P (stop_historical_backtest_feed_worker c w)
  unfolding stop_historical_backtest_feed_worker
  historical_keeps =
      let called = Keeps-call k.is_quiet w in
      let changed =
        Keeps-modify
          (λ s. record s { historical_feed = record s.historical_feed { stop_set = true } })
          k.historical in
      search (keeps_rules) depth 8

  pub instance_keeps : Keeps P (stop_strategy_instance c w)
  unfolding stop_strategy_instance
  instance_keeps =
      let called = Keeps-call k.is_quiet w in
      let changed = Keeps-modify (λ s. record s { has_adapter = false }) k.adapter in
      search (keeps_rules) depth 8

  pub tear_down_keeps : Keeps P (tear_down c w)
  unfolding tear_down close_clients
  tear_down_keeps =
      let called = Keeps-call k.is_quiet w in
      let step = step_keeps k.is_quiet c w k.steps in
      let closed = close_from_keeps k.is_quiet c w in
      let moved = set_phase_keeps k.is_quiet c w stopping none (λ s. k.phase s stopping) in
      search (keeps_rules, instance_keeps) depth 60

  -- what a step of `stop_ingress` ensures, the steps after it keep
  pub ingress-Ensures :
      (Ensures P (modify (λ s. record s { shutdown_in_progress = true }))
          ⊎ Ensures P (stop_live_market_data_feed_worker c w))
        ⊎ (Ensures P (stop_portfolio_update_feed_worker c w)
            ⊎ Ensures P (stop_historical_backtest_feed_worker c w))
      → Ensures P (stop_ingress c w)
  unfolding stop_ingress
  ingress-Ensures e =
      let step = step_keeps k.is_quiet c w k.steps in
      elim e [
        | inl (inl busy) ↦
            search (Ensures-here, keeps_rules, live_keeps, portfolio_keeps, historical_keeps) depth
              40
        | inl (inr live) ↦
            search (Ensures-later, Ensures-here, keeps_rules, portfolio_keeps, historical_keeps)
              depth 40
        | inr (inl portfolio) ↦
            search (Ensures-later, Ensures-here, keeps_rules, historical_keeps) depth 40
        | inr (inr historical) ↦ search (Ensures-later, Ensures-here, keeps_rules) depth 40
      ]

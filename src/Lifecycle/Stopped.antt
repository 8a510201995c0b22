-- ===== src/Lifecycle/Stopped.antt =====
-- What `stop` has done when it returns.
use swr_ddd.Common.{inl, inr, ◌≡◌, refl, Bool, true, false, Option, none, arith, returned}
use swr_ddd.Common.Text.{Text}
use swr_ddd.Lifecycle.{
  Config, World, Service, stop, tear_down, stop_ingress, finish_stop,
  stop_live_market_data_feed_worker, final_phase, stop_portfolio_update_feed_worker,
  stop_historical_backtest_feed_worker, ◌>>=◌, emit_periodic_heartbeat,
  should_stop_for_completed_backtest_job, resolve_stop, modify, ◌>>◌,
}
use swr_ddd.Lifecycle.Logic.{
  Keeps, Ensures, keeps_rules, Ensures-here, Ensures-later, IsQuiet, Keeps-call, Ensures-modify,
  Ensures-Leaves, otherwise, OnReturn, OnReturn-map, Ensures-both,
}
use swr_ddd.Lifecycle.Keeping.{
  IsKept, step_keeps, report_final_keeps, set_phase-Leaves, set_phase_keeps, tear_down_keeps,
  ingress-Ensures,
}

-- The stop is marked and every feed was told to stop.
abbrev pub IsClosing : Service → Type 0
IsClosing s =
    (s.shutdown_in_progress ≡ true × s.live_feed.stop_set ≡ true)
    × (s.portfolio_feed.stop_set ≡ true × s.historical_feed.stop_set ≡ true)

-- The final phase is set and the flags say that the worker is down.
abbrev pub IsOver : Config → Option Text → Service → Type 0
IsOver c code s = s.phase ≡ final_phase c code × (s.shutdown_complete ≡ true × s.started ≡ false)

busy_kept : IsKept (λ s. s.shutdown_in_progress ≡ true)
busy_kept = search depth 6

live_kept : IsKept (λ s. s.live_feed.stop_set ≡ true)
live_kept = search depth 6

portfolio_kept : IsKept (λ s. s.portfolio_feed.stop_set ≡ true)
portfolio_kept = search depth 6

historical_kept : IsKept (λ s. s.historical_feed.stop_set ≡ true)
historical_kept = search depth 6

module _ (c : Config) (w : World) where
  live_stopped : Ensures (λ s. s.live_feed.stop_set ≡ true) (stop_live_market_data_feed_worker c w)
  unfolding stop_live_market_data_feed_worker
  live_stopped =
      Ensures-here _ _ (Ensures-modify _ (λ s. refl))
        (λ _. search (keeps_rules, Keeps-call live_kept.is_quiet w) depth 10)

  portfolio_stopped :
      Ensures (λ s. s.portfolio_feed.stop_set ≡ true) (stop_portfolio_update_feed_worker c w)
  unfolding stop_portfolio_update_feed_worker
  portfolio_stopped =
      Ensures-here _ _ (Ensures-modify _ (λ s. refl))
        (λ _. search (keeps_rules, Keeps-call portfolio_kept.is_quiet w) depth 10)

  historical_stopped :
      Ensures (λ s. s.historical_feed.stop_set ≡ true) (stop_historical_backtest_feed_worker c w)
  unfolding stop_historical_backtest_feed_worker
  historical_stopped =
      Ensures-here _ _ (Ensures-modify _ (λ s. refl))
        (λ _. search (keeps_rules, Keeps-call historical_kept.is_quiet w) depth 10)

  ingress-IsClosing : Ensures IsClosing (stop_ingress c w)
  ingress-IsClosing =
      Ensures-both _ _ _
        (Ensures-both _ _ _
          (ingress-Ensures busy_kept c w (inl (inl (Ensures-modify _ (λ s. refl)))))
          (ingress-Ensures live_kept c w (inl (inr live_stopped))))
        (Ensures-both _ _ _ (ingress-Ensures portfolio_kept c w (inr (inl portfolio_stopped)))
          (ingress-Ensures historical_kept c w (inr (inr historical_stopped))))

  finish-IsOver :
      (emit : Bool) (code : Option Text) (reason : Text) (message : Option Text)
      → Ensures (IsOver c code) (finish_stop c w emit code reason message)
  unfolding finish_stop
  finish-IsOver emit code reason message =
      let q : IsQuiet (λ s. s.phase ≡ final_phase c code) = search depth 6 in
      let moved = Ensures-Leaves _ (set_phase-Leaves q c w (final_phase c code) none (λ s. refl)) in
      let reported = report_final_keeps q c w reason message in
      let flagged : Ensures (λ s. s.shutdown_complete ≡ true × s.started ≡ false)
          (modify (λ s. record s { shutdown_complete = true; started = false })) =
        Ensures-modify _ (λ s. (refl, refl)) in
      Ensures-later _ _ λ _. Ensures-later _ _ λ _. Ensures-later _ _ λ _.
        Ensures-both _ _ _ (search (Ensures-here, keeps_rules) depth 20) (
          Ensures-later _ _ λ _. Ensures-later _ _ λ _. search (Ensures-here, keeps_rules) depth 20)

  IsClosing-kept : IsKept IsClosing
  IsClosing-kept = record {
    is_quiet = search depth 6;
    steps = λ s t h. h;
    phase = λ s p h. h;
    busy = λ s h. ((refl, h.0.1), h.1);
    live = λ s h. ((h.0.0, refl), h.1);
    portfolio = λ s h. (h.0, (refl, h.1.1));
    historical = λ s h. (h.0, (h.1.0, refl));
    adapter = λ s h. h;
  }

  finish-IsClosing :
      (emit : Bool) (code : Option Text) (reason : Text) (message : Option Text)
      → Keeps IsClosing (finish_stop c w emit code reason message)
  unfolding finish_stop
  finish-IsClosing emit code reason message =
      let called = Keeps-call IsClosing-kept.is_quiet w in
      let step = step_keeps IsClosing-kept.is_quiet c w IsClosing-kept.steps in
      let reported = report_final_keeps IsClosing-kept.is_quiet c w reason message in
      let moved =
        set_phase_keeps IsClosing-kept.is_quiet c w (final_phase c code) none
          (λ s. IsClosing-kept.phase s (final_phase c code)) in
      search (keeps_rules) depth 20

  stop_body :
      (emit : Bool) (code : Option Text) (reason : Text) (message : Option Text)
      → Ensures
          (λ t. IsClosing t × IsOver c code t)
          (stop_ingress c w >> (tear_down c w >> finish_stop c w emit code reason message))
  stop_body emit code reason message =
      let finished = finish-IsOver emit code reason message in
      let kept = finish-IsClosing emit code reason message in
      let torn = tear_down_keeps IsClosing-kept c w in
      Ensures-both _ _ _ (search (Ensures-here, keeps_rules, ingress-IsClosing) depth 8)
        (Ensures-later _ _ (λ _. Ensures-later _ _ (λ _. finished)))

  -- A `stop` of a worker that is not yet down, if it returns, leaves the final phase, the flags of
  -- a worker that is down, and all three feeds told to stop.
  pub stop_ends :
      (emit : Bool) (code message : Option Text) (s : Service)
      → s.shutdown_complete ≡ false
      → OnReturn (λ t. IsClosing t × IsOver c code t) (stop c w emit code message s)
  unfolding stop ◌>>=◌
  stop_ends emit code message s h =
      let resolved = resolve_stop s code message in
      otherwise (OnReturn (λ t. IsClosing t × IsOver c code t)) s.shutdown_complete _ _ s h
        ((stop_body emit code resolved.0 resolved.1).at s)

down_is_final :
    (c : Config) (v : World) (again : Bool) (code message : Option Text) (t : Service)
    → t.shutdown_in_progress ≡ true
    → t.shutdown_complete ≡ true
    → stop c v again code message t ≡ (returned false, t)
      × (emit_periodic_heartbeat c v t ≡ (returned tt, t)
          × should_stop_for_completed_backtest_job c t ≡ false)
unfolding stop emit_periodic_heartbeat should_stop_for_completed_backtest_job ◌>>=◌
down_is_final c v again code message t b h = ground arith

-- A `stop` that returned is final: the next one returns `False` and changes nothing, no heartbeat
-- is sent any more and a completed backtest does not ask for a stop.
pub stop_is_final :
    (c : Config) (w : World) (emit : Bool) (code message : Option Text) (s : Service)
    → s.shutdown_complete ≡ false
    → OnReturn
        (λ t.
          (v : World) (again : Bool) (code' message' : Option Text)
          → stop c v again code' message' t ≡ (returned false, t)
            × (emit_periodic_heartbeat c v t ≡ (returned tt, t)
                × should_stop_for_completed_backtest_job c t ≡ false))
        (stop c w emit code message s)
stop_is_final c w emit code message s h =
    OnReturn-map _ _ (stop c w emit code message s)
      (λ t d v again code' message'. down_is_final c v again code' message' t d.0.0.0 d.1.1.0)
      (stop_ends c w emit code message s h)

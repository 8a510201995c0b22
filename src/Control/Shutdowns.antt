-- ===== src/Control/Shutdowns.antt =====
-- What a stop request over HTTP leads to.
use swr_ddd.Common.{◌≡◌, ℕ, zero, suc, Bool, true, false, none, Outcome, returned, raised, arith}
use swr_ddd.Common.Text.{Text}
use swr_ddd.Phase.{stopped}
use swr_ddd.Lifecycle.{Config, World, Service, Error, stop}
use swr_ddd.Lifecycle.Logic.{OnReturn}
use swr_ddd.Lifecycle.Requested.{takes_stop, accepts, requested}
use swr_ddd.Lifecycle.Stopped.{stop_ends, IsOver, IsClosing}
use swr_ddd.Lifecycle.Returning.{stop_returns}
use swr_ddd.Lifecycle.Total.{IsCalm}
use swr_ddd.Control.{Coordinator, ensure_shutdown_thread, request_http_stop, run_shutdown}

-- the started shutdown threads run to their end, one after the other
abbrev pub run_threads : Config → World → ℕ → Coordinator → Coordinator
run_threads c w zero k = k
run_threads c w (suc n) k = run_shutdown c w (run_threads c w n k)

ensured :
    (k : Coordinator)
    → k.shutdown_thread_started ≡ false
    → k.threads ≡ 0
    → ((ensure_shutdown_thread k).service ≡ k.service) × ((ensure_shutdown_thread k).threads ≡ 1)
unfolding ensure_shutdown_thread
ensured k h n = ground arith

module _ (c : Config) (w : World) (calm : IsCalm w) where
  ended_stopped :
      (r : Outcome Error Bool) (t : Service)
      → r ≡ returned true
      → OnReturn (λ u. IsClosing u × IsOver c none u) (r, t)
      → t.phase ≡ stopped
  ended_stopped (returned b) t h o = o.1.0
  ended_stopped (raised e) t h o = cc

  not_down :
      (reason : Text) (s : Service) → takes_stop c w reason s ≡ true → s.shutdown_complete ≡ false
  not_down reason s h = ground arith

  stop_stopped :
      (s : Service) → s.shutdown_complete ≡ false → (stop c w false none none s).1.phase ≡ stopped
  stop_stopped s h =
      ended_stopped (stop c w false none none s).0 (stop c w false none none s).1
        (stop_returns c w calm false none none s h) (stop_ends c w false none none s h)

  -- When no call raises, no shutdown thread was started before and the worker takes the stop, a stop
  -- request over HTTP has one shutdown thread started, and when the threads that are then started
  -- have run the worker is STOPPED.
  pub http_stop_stops :
      (reason : Text) (k : Coordinator)
      → k.shutdown_thread_started ≡ false
      → k.threads ≡ 0
      → takes_stop c w reason k.service ≡ true
      → ((request_http_stop c w reason k).1.threads ≡ 1)
        × ((run_threads c w
              (request_http_stop c w reason k).1.threads
              (request_http_stop c w reason k).1).service.phase
            ≡ stopped)
  unfolding request_http_stop run_shutdown
  http_stop_stops reason k unstarted none_yet h =
      let (same_service, one) =
        ensured (record k { service = requested c w reason k.service }) unstarted none_yet in
      rw (accepts c w reason k.service h) (
        one,
        rw (one, same_service)
            (stop_stopped (requested c w reason k.service) (not_down reason k.service h)),
      )

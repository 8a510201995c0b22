-- ===== src/Lifecycle/Running.antt =====
-- `run`, and the three methods that start the ingress feeds.
use swr_ddd.Common.{
  Bool, true, false, not, ◌&&◌, ◌||◌, Option, none, some, List, [], ◌∷◌, if◌then◌else◌, NoneType,
}
use swr_ddd.Common.Text.{Text, strip, is_empty}
use swr_ddd.Mode.{is_backtest, is_paper_or_live}
use swr_ddd.Phase.{ready, running, phase_eq}
use swr_ddd.Lifecycle.State.{
  Config, World, Service, Exec, Settings, FeedState, live_market_data, portfolio_update,
  historical_backtest, start_thread, gets, modify, when, call, ◌>>=◌, ◌>>◌,
}
use swr_ddd.Lifecycle.Phases.{ready_or_running, set_phase, emit_periodic_heartbeat}
use swr_ddd.Lifecycle.Startup.{start}

-- a text that is not blank once stripped
abbrev is_given : Text → Bool
is_given t = not (is_empty (strip t))

abbrev is_given_option : Option Text → Bool
is_given_option none = false
is_given_option (some t) = is_given t

-- the flag, the cleared stop event and the thread object of a feed that is started
abbrev started_feed : FeedState
started_feed = record { feed_started = true; stop_set = false; has_thread = true }

module _ (c : Config) where
  abbrev historical_configured : Option Settings → Bool
  historical_configured none = false
  historical_configured (some settings) = is_given settings.historical_data_grpc_target

  unfoldable pub wants_historical : Service → Bool
  wants_historical s =
      not s.historical_feed.feed_started
      && (is_backtest c.mode && (c.has_historical_client && historical_configured c.settings))

  abbrev market_data_configured : Option Settings → Bool
  market_data_configured none = false
  market_data_configured (some settings) = is_given settings.market_data_redis_url

  -- there is a symbol, and its stream keys are not empty
  abbrev has_streams : Option (List Text) → Bool
  has_streams none = false
  has_streams (some []) = false
  has_streams (some (k ∷ ks)) = true

  unfoldable pub wants_market_data : Service → Bool
  wants_market_data s =
      not s.live_feed.feed_started
      && (is_paper_or_live c.mode
          && (market_data_configured c.settings && has_streams c.live_stream_names))

  -- the Redis URL of its own, or else that of the market data
  abbrev portfolio_configured : Option Settings → Bool
  portfolio_configured none = false
  portfolio_configured (some settings) =
      settings.portfolio_update_enabled
      && (is_given settings.portfolio_update_redis_url || is_given settings.market_data_redis_url)

  unfoldable pub wants_portfolio : Service → Bool
  wants_portfolio s =
      not s.portfolio_feed.feed_started
      && (is_paper_or_live c.mode && (portfolio_configured c.settings && is_given_option c.job_id))

  module _ (w : World) where
    unfoldable pub maybe_start_historical_backtest_driver : Exec NoneType
    maybe_start_historical_backtest_driver = do
      wanted ← gets wants_historical
      when wanted do
        modify (λ s. record s { historical_feed = started_feed })
        call w (start_thread historical_backtest)

    unfoldable pub maybe_start_live_market_data_feed : Exec NoneType
    maybe_start_live_market_data_feed = do
      wanted ← gets wants_market_data
      when wanted do
        modify (λ s. record s { live_feed = started_feed })
        call w (start_thread live_market_data)

    unfoldable pub maybe_start_portfolio_update_feed : Exec NoneType
    maybe_start_portfolio_update_feed = do
      wanted ← gets wants_portfolio
      when wanted do
        modify (λ s. record s { portfolio_feed = started_feed })
        call w (start_thread portfolio_update)

    -- what `run` does once `start` has returned
    unfoldable pub run_started : Exec NoneType
    run_started = do
      phase ← gets (λ s. s.phase)
      when (phase_eq phase ready) do
        set_phase c w running none
        emit_periodic_heartbeat c w
        maybe_start_historical_backtest_driver
        maybe_start_live_market_data_feed
        maybe_start_portfolio_update_feed

    unfoldable pub run : Exec NoneType
    run = start c w >> run_started

-- `should_stop_for_completed_backtest_job`
unfoldable pub should_stop_for_completed_backtest_job : Config → Service → Bool
should_stop_for_completed_backtest_job c s =
    if s.shutdown_complete || s.shutdown_in_progress
    then false
    else if not (is_backtest c.mode)
    then false
    else if not s.backtest_replay_complete
    then false
    else ready_or_running s.phase

-- ===== src/MarketData/Reading/Reconnect.antt =====
-- How the two loops go on after a lost connection.
use swr_ddd.Common.{ℕ, zero, suc, ◌≤◌, false, Option, List, [], ◌∷◌, ◌++◌, ◌≡◌, refl, arith, raised}
use swr_ddd.Common.Text.{Text}
use swr_ddd.MarketData.Streams.{MarketDataRedisKeys}
use swr_ddd.MarketData.Decoding.{Python, redis_failed}
use swr_ddd.MarketData.Ingress.{
  Redis, Call, open_client, close_client, xgroup_create, xreadgroup, wait, disconnected,
  group_failed, reconnect_backoff_seconds,
}
use swr_ddd.MarketData.Reading

pub backoff-bounds :
    (attempt : ℕ)
    → (1 ≤ reconnect_backoff_seconds attempt) × (reconnect_backoff_seconds attempt ≤ 30)
unfolding reconnect_backoff_seconds
backoff-bounds zero = ground arith
backoff-bounds (suc zero) = ground arith
backoff-bounds (suc (suc zero)) = ground arith
backoff-bounds (suc (suc (suc zero))) = ground arith
backoff-bounds (suc (suc (suc (suc zero)))) = ground arith
backoff-bounds (suc (suc (suc (suc (suc n))))) = ground arith

module _ (py : Python) (w : Redis py.Number) (keys : MarketDataRedisKeys) (bar_timeframe : Text)
    (strategy_symbol : Option Text) where
  -- the calls of a round in which the connection is lost
  abbrev pub lost : ℕ → List (Call py.Number) → List (Call py.Number)
  lost attempt t =
      t
      ++ xreadgroup disconnected
        ∷ wait (reconnect_backoff_seconds attempt)
        ∷ close_client
        ∷ open_client
        ∷ []

  -- When XREADGROUP loses the connection, the wait is not cut short and the first group cannot be
  -- created yet, the loop ends with the exception: it makes no second attempt.
  pub xreadgroup_loop_lost :
      (s : Text) (names : List Text) (rounds attempt : ℕ) (t : List (Call py.Number))
      → w.stop_is_set t ≡ false
      → w.reads t ≡ disconnected
      → w.wait_is_set
          ((t ++ xreadgroup disconnected ∷ []) ++ wait (reconnect_backoff_seconds attempt) ∷ [])
        ≡ false
      → w.creates (
          (((t ++ xreadgroup disconnected ∷ []) ++ wait (reconnect_backoff_seconds attempt) ∷ [])
            ++ close_client ∷ open_client ∷ [])
          ++ xgroup_create s ∷ [])
        ≡ group_failed
      → (Reading.xreadgroup_loop py w keys bar_timeframe strategy_symbol
          (s ∷ names)
          (suc rounds)
          attempt
          t).0
        ≡ raised redis_failed
  unfolding Reading.xreadgroup_loop Reading.ensure_consumer_groups
  xreadgroup_loop_lost s names rounds attempt t running lost_now waited failed =
      rw (running, lost_now, waited, Reading.ensure_consumer_groups, failed) refl

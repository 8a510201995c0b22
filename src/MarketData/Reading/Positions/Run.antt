-- ===== src/MarketData/Reading/Positions/Run.antt =====
-- The positions of a run: XREAD asks for what follows the last entry.
use swr_ddd.Common.{
  ℕ, zero, suc, true, Option, List, [], ◌∷◌, ◌++◌, ◌≡◌, refl, sym, is_some, arith, Yields, returned,
  raised,
}
use swr_ddd.Common.Text.{Text, member}
use swr_ddd.Common.Dict.{Dict, get, put}
use swr_ddd.MarketData.Streams.{MarketDataRedisKeys}
use swr_ddd.MarketData.Decoding.{Python}
use swr_ddd.MarketData.Ingress.{
  Redis, Call, open_client, close_client, xread, wait, Result, Reply, disconnected, messages,
  reconnect_backoff_seconds,
}
use swr_ddd.MarketData.Reading
use swr_ddd.MarketData.Reading.{position_or}
use swr_ddd.MarketData.Reading.Positions.{
  last_in_batch, last_in_reply, asks_after_last, Asked, quiet_call, read_call, AskedResult,
}
use swr_ddd.MarketData.Reading.Positions.Known.{
  position, read_batch-last, read_batch-known, starts-known, start_positions-start,
}
use swr_ddd.MarketData.Reading.Positions.Batch.{then_call-Asked, read_messages-Asked}

module _ (py : Python) (w : Redis py.Number) (start_id s : Text) where
  module _ (keys : MarketDataRedisKeys) (bar_timeframe : Text) (strategy_symbol : Option Text) where
    abbrev asked_from : Dict Text → Text
    asked_from = position py w start_id s keys bar_timeframe strategy_symbol

    read_batch-Asked :
        (last_id : Text) (batch : Reading.Batch) (positions : Dict Text) (t : List (Call py.Number))
        → Asked start_id s last_id t
        → AskedResult start_id s
            (λ d. last_id)
            (Reading.read_batch py w keys bar_timeframe strategy_symbol start_id batch positions t)
    unfolding Reading.read_batch
    read_batch-Asked last_id [] positions t h = h
    read_batch-Asked last_id ((r, ms) ∷ batch) positions t h =
        then_call-Asked py w start_id s (λ q. last_id) (λ d. last_id) _ _
          (read_messages-Asked py w start_id s keys bar_timeframe strategy_symbol last_id r ms _ t
            h)
          (λ q t' h'. read_batch-Asked last_id batch (put r q positions) t' h')

    -- both at once
    position-Asked :
        (last_id : Text) (r : Result py.Number (Dict Text))
        → Yields (λ d. asked_from d ≡ last_id) (r.0)
        → AskedResult start_id s (λ d. last_id) r
        → AskedResult start_id s asked_from r
    position-Asked last_id (returned d, t) e h = rw e h
    position-Asked last_id (raised x, t) e h = h

    wait_and_reopen-Asked :
        (last_id : Text) (attempt : ℕ) (t : List (Call py.Number))
        (next : List (Call py.Number) → Result py.Number Reading.Ending)
        → Asked start_id s last_id t
        → ((t' : List (Call py.Number))
            → Asked start_id s last_id t'
            → asks_after_last start_id s (next t').1 start_id ≡ true)
        → asks_after_last start_id s (Reading.wait_and_reopen py w attempt t next).1 start_id ≡ true
    wait_and_reopen-Asked last_id attempt t next b h =
        let call : List (Call py.Number) = wait (reconnect_backoff_seconds attempt) ∷ [] in
        let b' : Asked start_id s last_id (t ++ call) =
          quiet_call start_id s last_id t call (λ l. refl) (λ l. refl) b in
        let reopened =
          quiet_call start_id s last_id (t ++ call) (close_client ∷ open_client ∷ []) (λ l. refl)
            (λ l. refl) b' in
        ground (arith, b'.asked, h _ reopened)

    then_call-asks {ℓ ν} :
        {A : Type ℓ} (P : A → Type ν) (last_id : A → Text) (r : Result py.Number A)
        (next : A → List (Call py.Number) → Result py.Number Reading.Ending)
        → Yields P (r.0)
        → AskedResult start_id s last_id r
        → ((a : A) (t : List (Call py.Number))
            → P a
            → Asked start_id s (last_id a) t
            → asks_after_last start_id s (next a t).1 start_id ≡ true)
        → asks_after_last start_id s (Reading.then_call py w r next).1 start_id ≡ true
    then_call-asks P last_id (returned a, t) next y b h = h a t y b
    then_call-asks P last_id (raised e, t) next y b h = b

    after_read_reply-asks :
        (attempt : ℕ) (positions : Dict Text)
        (again : ℕ → Dict Text → List (Call py.Number) → Result py.Number Reading.Ending)
        (reply : Reply) (t : List (Call py.Number))
        → ((a : ℕ) (d : Dict Text) (t' : List (Call py.Number))
            → is_some (get s d) ≡ true
            → Asked start_id s (asked_from d) t'
            → asks_after_last start_id s (again a d t').1 start_id ≡ true)
        → is_some (get s positions) ≡ true
        → Asked start_id s (last_in_reply s reply (asked_from positions)) t
        → asks_after_last start_id s
            (Reading.after_read_reply py w keys bar_timeframe strategy_symbol start_id attempt
              positions again reply t).1
            start_id
          ≡ true
    after_read_reply-asks attempt positions again disconnected t h known b =
        wait_and_reopen-Asked (asked_from positions) attempt t
          (λ t'. again (suc attempt) positions t') b
          (λ t' b'. h (suc attempt) positions t' known b')
    after_read_reply-asks attempt positions again (messages batch) t h known b =
        then_call-asks (λ d. is_some (get s d) ≡ true) asked_from _ _
          (read_batch-known py w start_id s keys bar_timeframe strategy_symbol batch positions t
            known)
          (position-Asked (last_in_batch s batch (asked_from positions)) _
            (read_batch-last py w start_id s keys bar_timeframe strategy_symbol batch positions t)
            (read_batch-Asked (last_in_batch s batch (asked_from positions)) batch positions t b))
          (λ d t' k b'. h 0 d t' k b')

    xread_loop-asks :
        (rounds attempt : ℕ) (positions : Dict Text) (t : List (Call py.Number))
        → is_some (get s positions) ≡ true
        → Asked start_id s (asked_from positions) t
        → asks_after_last start_id s
            (Reading.xread_loop py w keys bar_timeframe strategy_symbol start_id rounds attempt
              positions t).1
            start_id
          ≡ true
    unfolding Reading.xread_loop
    xread_loop-asks zero attempt positions t known b = b.asked
    xread_loop-asks (suc rounds) attempt positions t known b =
        let again : ℕ → Dict Text → List (Call py.Number) → Result py.Number Reading.Ending =
          λ a d t'.
            Reading.xread_loop py w keys bar_timeframe strategy_symbol start_id rounds a d t' in
        let next =
          after_read_reply-asks attempt positions again (w.reads t)
            (t ++ xread positions (w.reads t) ∷ [])
            (λ a d t' k b'. xread_loop-asks rounds a d t' k b') known
            (read_call start_id s t positions (w.reads t) known b) in
        ground (arith, b.asked, next)

    -- Over a run of the XREAD loop from the start position, every XREAD names every stream of the
    -- loop, and asks it for what follows the last entry that an earlier one delivered for it, or for
    -- the start position.
    pub xread_loop-AsksAfterLast :
        (names : List Text) (rounds : ℕ)
        → member s names ≡ true
        → asks_after_last start_id s
            (Reading.xread_loop py w keys bar_timeframe strategy_symbol start_id rounds 0
              (Reading.start_positions py w keys bar_timeframe strategy_symbol start_id names [])
              (open_client ∷ [])).1
            start_id
          ≡ true
    unfolding get
    xread_loop-AsksAfterLast names rounds listed =
        xread_loop-asks rounds 0 _ (open_client ∷ [])
          (starts-known py w start_id s keys bar_timeframe strategy_symbol names [] listed)
          record {
            asked = refl;
            last = sym (
                start_positions-start py w start_id s keys bar_timeframe strategy_symbol names []
                  refl);
          }

-- ===== src/MarketData/Reading/Positions.antt =====
-- XREAD asks each stream for what comes after the last entry that it has delivered.
pub mod Batch
pub mod Known
pub mod Run
use mathlib.Core.List.{append_assoc}
use swr_ddd.Common.{
  ℕ, zero, suc, Bool, true, false, ◌&&◌, Option, none, some, List, [], ◌∷◌, ◌++◌, if◌then◌else◌,
  is_some, ◌≡◌, refl, sym, ap, subst, ◌∙◌, arith, Outcome, NoneType, Yields, returned, raised,
}
use swr_ddd.Common.Text.{Text, text_eq, text_eq_iff, text_eq_refl}
use swr_ddd.Common.Dict.{Dict, get, put, get-put}
use swr_ddd.MarketData.Streams.{MarketDataRedisKeys}
use swr_ddd.MarketData.Decoding.{Python, Tick, IngressError, stream_payload_to_tick}
use swr_ddd.MarketData.Ingress.{
  Redis, Call, open_client, close_client, xread, xreadgroup, on_tick, wait, Result, Fields, Reply,
  disconnected, messages, not_a_dict, dict, handle_read_fields, process_fields,
  process_one_stream_field, after_decoding, dispatch_tick, reconnect_backoff_seconds, Pending, Step,
  no_callback, then_step, drop_pending, matches_strategy,
}
use swr_ddd.MarketData.Reading
use swr_ddd.MarketData.Reading.{position_or}

-- the id of the last message of a stream's part of a reply
abbrev pub last_of_messages : List (Text × Fields) → Text → Text
last_of_messages [] last_id = last_id
last_of_messages ((m, fields) ∷ rest) last_id = last_of_messages rest m

abbrev pub last_in_batch : Text → Reading.Batch → Text → Text
last_in_batch s [] last_id = last_id
last_in_batch s ((r, ms) ∷ rest) last_id =
    last_in_batch s rest (if text_eq r s then last_of_messages ms last_id else last_id)

abbrev pub last_in_reply : Text → Reply → Text → Text
last_in_reply s disconnected last_id = last_id
last_in_reply s (messages batch) last_id = last_in_batch s batch last_id

module _ {N : Type 0} where
  -- the stream's last entry after a call, from that before it
  abbrev last_by : Text → Call N → Text → Text
  last_by s (xread positions reply) last_id = last_in_reply s reply last_id
  last_by s _ last_id = last_id

  -- an XREAD names the stream and asks it for what follows its last entry
  abbrev asks_by : Text → Text → Call N → Text → Bool
  asks_by start_id s (xread positions reply) last_id =
      is_some (get s positions) && text_eq (position_or (get s positions) start_id) last_id
  asks_by start_id s _ last_id = true

  -- the last entry of a stream that the calls delivered, if there is one
  abbrev pub last_delivered : Text → List (Call N) → Text → Text
  last_delivered s [] last_id = last_id
  last_delivered s (c ∷ t) last_id = last_delivered s t (last_by s c last_id)

  -- every XREAD names the stream and asks it for what follows the last entry delivered before it
  abbrev pub asks_after_last : Text → Text → List (Call N) → Text → Bool
  asks_after_last start_id s [] last_id = true
  asks_after_last start_id s (c ∷ t) last_id =
      asks_by start_id s c last_id && asks_after_last start_id s t (last_by s c last_id)

  asks-append :
      (start_id s : Text) (t u : List (Call N)) (last_id : Text)
      → asks_after_last start_id s (t ++ u) last_id ≡ (
          asks_after_last start_id s t last_id
          && asks_after_last start_id s u (last_delivered s t last_id))
  asks-append start_id s [] u last_id = refl
  asks-append start_id s (c ∷ t) u last_id =
      ground (arith, asks-append start_id s t u (last_by s c last_id))

  last-append :
      (s : Text) (t u : List (Call N)) (last_id : Text)
      → last_delivered s (t ++ u) last_id ≡ last_delivered s u (last_delivered s t last_id)
  last-append s [] u last_id = refl
  last-append s (c ∷ t) u last_id = last-append s t u (last_by s c last_id)

  -- the trace is well asked and its last entry of the stream is `last_id`
  pub record Asked (start_id s last_id : Text) (t : List (Call N)) : Type 0 where
    pub asked : asks_after_last start_id s t start_id ≡ true
    pub last : last_delivered s t start_id ≡ last_id

  pub quiet_call :
      (start_id s last_id : Text) (t u : List (Call N))
      → ((l : Text) → asks_after_last start_id s u l ≡ true)
      → ((l : Text) → last_delivered s u l ≡ l)
      → Asked start_id s last_id t
      → Asked start_id s last_id (t ++ u)
  quiet_call start_id s last_id t u a l h = record {
    asked = rw (asks-append start_id s t u start_id, a (last_delivered s t start_id), h.asked) refl;
    last = rw (last-append s t u start_id, l (last_delivered s t start_id)) h.last;
  }

  pub read_call :
      (start_id s : Text) (t : List (Call N)) (positions : Dict Text) (reply : Reply)
      → is_some (get s positions) ≡ true
      → Asked start_id s (position_or (get s positions) start_id) t
      → Asked start_id s
          (last_in_reply s reply (position_or (get s positions) start_id))
          (t ++ xread positions reply ∷ [])
  read_call start_id s t positions reply known h = record {
    asked =
        rw
          (
            asks-append start_id s t (xread positions reply ∷ []) start_id,
            h.asked,
            h.last,
            known,
            text_eq_refl (position_or (get s positions) start_id),
          )
          refl;
    last = rw (last-append s t (xread positions reply ∷ []) start_id, h.last) refl;
  }

  -- a result whose trace is well asked, with `last_id` as the stream's last entry if it returned
  abbrev pub AskedResult {ℓ} : {A : Type ℓ} → Text → Text → (A → Text) → Result N A → Type 0
  AskedResult start_id s last_id (returned a, t) = Asked start_id s (last_id a) t
  AskedResult start_id s last_id (raised e, t) = asks_after_last start_id s t start_id ≡ true

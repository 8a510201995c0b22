-- ===== src/Heartbeat/Accepted.antt =====
-- When the client says that a heartbeat was accepted.
use swr_ddd.Common.{
  ℕ, ◌≤◌, Bool, true, false, ◌&&◌, ◌||◌, not, Option, none, some, List, [], ◌∷◌, length, ◌==◌,
  if◌then◌else◌, ◌≡◌, refl, arith, Outcome, returned, raised,
}
use swr_ddd.Common.Text.{Text, codes, strip, is_empty, text_eq}
use swr_ddd.Common.Dict.{get}
use swr_ddd.Heartbeat.Client.{
  map_http_result, result_of_success, SignalIdentity, Payload, Signal, Client, result_of_answer,
  post_with_source, post_observed, post_mappings, emit_signal,
}
use swr_ddd.Heartbeat.{
  Library, HeartbeatError, StatusSource, Result, accepted, skipped, refused,
  srm_base_url_not_configured, runtime_id_required, owner_resource_id_required, unsupported_signal,
  Request, Answer, answered, unreachable, breaks_off, or_blank, normalize_srm_status_source,
}

abbrev pub is_accepted : Outcome HeartbeatError Result → Bool
is_accepted (returned accepted) = true
is_accepted (returned skipped) = true
is_accepted _ = false

module _ {A : Type 0} where
  abbrev option_bind : {B : Type 0} → Option A → (A → Option B) → Option B
  option_bind none f = none
  option_bind (some a) f = f a

  -- there is a value, and it passes the test
  abbrev holds : (A → Bool) → Option A → Bool
  holds test none = false
  holds test (some a) = test a

module _ (py : Library) where
  -- the entry `success` of the dict that a text is the JSON of, if it is one and has one
  abbrev pub success_of : Text → Option py.Value
  success_of body = option_bind (option_bind (py.loads body) py.as_dict) (get (codes "success"))

  -- a text is the JSON of a dict whose `success` is True
  abbrev pub is_success_body : Text → Bool
  is_success_body body = holds py.is_true (success_of body)

  -- an answer that says that the status was taken
  abbrev pub is_success : Answer → Bool
  is_success (answered status body) =
      ((status == 200) || (status == 202))
      && (is_empty (strip body) || is_success_body (strip body))
  is_success (unreachable reason) = false
  is_success breaks_off = false

  -- one request was sent and its answer is a success
  abbrev pub sent_well : (Request → Answer) → List Request → Bool
  sent_well http [] = false
  sent_well http (request ∷ []) = is_success (http request)
  sent_well http (request ∷ more ∷ rest) = false

  -- a heartbeat of a backtest, which is skipped
  abbrev pub is_backtest_of : Option (SignalIdentity py) → Option (Payload py) → Bool
  is_backtest_of (some identity) (some p) =
      text_eq (py.upper (strip (or_blank identity.mode))) (codes "BACKTEST")
  is_backtest_of _ _ = false

  abbrev pub is_backtest : Signal py → Bool
  is_backtest signal =
      text_eq signal.signal_type (codes "heartbeat")
      && is_backtest_of signal.identity signal.payload

  pub record Accepts (http : Request → Answer) (backtest : Bool)
      (r : Outcome HeartbeatError Result × List Request) : Type 0 where
    pub one_request : length r.1 ≤ 1
    pub exactly : is_accepted r.0 ≡ (backtest || sent_well http r.1)
    pub backtest_sends_nothing : (backtest && not (length r.1 == 0)) ≡ false

  result_of_success-accepted :
      (body : Text)
      → is_accepted (returned (result_of_success py (py.loads body))) ≡ is_success_body body
  result_of_success-accepted body = ground arith

  map_http_result-accepted :
      (status : ℕ) (body : Text)
      → is_accepted (returned (map_http_result py status body)) ≡ is_success (answered status body)
  unfolding map_http_result
  map_http_result-accepted status body = ground (arith, result_of_success-accepted (strip body))

  answer-accepted : (a : Answer) → is_accepted (result_of_answer py a) ≡ is_success a
  answer-accepted (answered status body) = map_http_result-accepted status body
  answer-accepted (unreachable reason) = refl
  answer-accepted breaks_off = refl

  -- nothing is sent and nothing accepted
  quiet-Accepts :
      (http : Request → Answer) (o : Outcome HeartbeatError Result)
      → is_accepted o ≡ false
      → Accepts http false (o, [])
  quiet-Accepts http o h = record {
    one_request = omega arith;
    exactly = h;
    backtest_sends_nothing = refl;
  }

  sent-Accepts :
      (http : Request → Answer) (self : Client py) (mode runtime_id : Text) (p : Payload py)
      (observed_at : py.Moment) (o : Outcome HeartbeatError StatusSource)
      → Accepts http false (post_with_source py http self mode runtime_id p observed_at o)
  sent-Accepts http self mode runtime_id p observed_at (raised e) =
      quiet-Accepts http (raised e) refl
  sent-Accepts http self mode runtime_id p observed_at (returned source) = record {
    one_request = omega arith;
    exactly = answer-accepted (http _);
    backtest_sends_nothing = refl;
  }

  observed-Accepts :
      (http : Request → Answer) (self : Client py) (mode runtime_id : Text) (p : Payload py)
      (observed_at : Option py.Moment)
      → Accepts http false (post_observed py http self mode runtime_id p observed_at)
  observed-Accepts http self mode runtime_id p none = quiet-Accepts http _ refl
  observed-Accepts http self mode runtime_id p (some observed_at) =
      sent-Accepts http self mode runtime_id p observed_at (normalize_srm_status_source py p.source)

  skipped-Accepts : (http : Request → Answer) → Accepts http true (returned skipped, [])
  skipped-Accepts http = record {
    one_request = omega arith;
    exactly = refl;
    backtest_sends_nothing = refl;
  }

  -- the tests of `emit_signal`, one after the other
  tested-Accepts :
      (http : Request → Answer) (backtest b c d : Bool) (e f : Outcome HeartbeatError Result)
      (g : Outcome HeartbeatError Result) (r : Outcome HeartbeatError Result × List Request)
      → is_accepted e ≡ false
      → is_accepted f ≡ false
      → is_accepted g ≡ false
      → Accepts http false r
      → Accepts http backtest (
          if backtest
          then (returned skipped, [])
          else if b
          then (e, [])
          else if c
          then (f, [])
          else if d
          then (g, [])
          else r)
  tested-Accepts http true b c d e f g r he hf hg h = skipped-Accepts http
  tested-Accepts http false true c d e f g r he hf hg h = quiet-Accepts http e he
  tested-Accepts http false false true d e f g r he hf hg h = quiet-Accepts http f hf
  tested-Accepts http false false false true e f g r he hf hg h = quiet-Accepts http g hg
  tested-Accepts http false false false false e f g r he hf hg h = h

  mappings-Accepts :
      (http : Request → Answer) (self : Client py) (identity : Option (SignalIdentity py))
      (payload : Option (Payload py))
      → Accepts http (is_backtest_of identity payload) (post_mappings py http self identity payload)
  mappings-Accepts http self none payload = quiet-Accepts http _ refl
  mappings-Accepts http self (some identity) none = quiet-Accepts http _ refl
  mappings-Accepts http self (some identity) (some p) =
      tested-Accepts http _ (is_empty self.base_url)
        (is_empty (strip (or_blank identity.runtime_id))) (is_empty self.owner_resource_id)
        (returned (refused srm_base_url_not_configured none)) (raised runtime_id_required)
        (returned (refused owner_resource_id_required none)) _ refl refl refl
        (observed-Accepts http self (py.upper (strip (or_blank identity.mode)))
          (strip (or_blank identity.runtime_id)) p p.observed_at)

  typed-Accepts :
      (http : Request → Answer) (b backtest : Bool)
      (r : Outcome HeartbeatError Result × List Request)
      → Accepts http backtest r
      → Accepts http
          (b && backtest)
          (if b then r else (returned (refused unsupported_signal none), []))
  typed-Accepts http true backtest r h = h
  typed-Accepts http false backtest r h = quiet-Accepts http _ refl

  -- A signal sends one request at most. It is accepted exactly if it is a heartbeat of a backtest,
  -- which sends none, or its request was answered by 200 or 202 with a blank body or a dict whose
  -- `success` is True.
  pub emit_signal-Accepts :
      (http : Request → Answer) (self : Client py) (signal : Signal py)
      → Accepts http (is_backtest signal) (emit_signal py http self signal)
  unfolding emit_signal
  emit_signal-Accepts http self signal =
      typed-Accepts http (text_eq signal.signal_type (codes "heartbeat")) _ _
        (mappings-Accepts http self signal.identity signal.payload)

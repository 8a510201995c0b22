-- ===== src/Lifecycle/Requested.antt =====
-- Requests to stop: when one is accepted, and what it leaves for the `stop` that follows.
use swr_ddd.Common.{
  ◌≡◌, ◌⊎◌, Bool, true, false, not, ◌&&◌, ◌||◌, Option, some, [], ◌∷◌, ◌++◌, arith, returned,
  raised, did_return, is_some,
}
use swr_ddd.Common.Text.{Text}
use swr_ddd.Reason.Stop.{canonical_reason_from_stop_request}
use swr_ddd.Lifecycle.{
  Config, World, Service, call, report_stopping, initiate_stop_from_request,
  stop_already_in_progress, resolve_stop, reports_to_srm, resolved_stop_message, ◌>>=◌,
}

-- Whether a stop request is accepted: the settings name a runtime manager, no stop was asked for
-- or begun, and the manager takes the report.
abbrev pub takes_stop : Config → World → Text → Service → Bool
takes_stop c w reason s =
    reports_to_srm c.settings
    && (not s.shutdown_complete
        && (not (s.stop_request_accepted || s.shutdown_in_progress)
            && not
                (is_some (w.answer (report_stopping (canonical_reason_from_stop_request reason))))))

module _ (c : Config) (w : World) (reason : Text) where
  -- what an accepted request changes
  abbrev pub requested : Service → Service
  requested s = record s {
    stop_request_accepted = true;
    stop_canonical_reason = some (canonical_reason_from_stop_request reason);
    stop_resolved_message =
        some (resolved_stop_message (canonical_reason_from_stop_request reason));
    shutdown_in_progress = true;
    trace = s.trace ++ (report_stopping (canonical_reason_from_stop_request reason) ∷ []);
  }

  -- the calls that a Refused request made
  abbrev pub Refused : Service → Service → Type 0
  Refused s t =
      (t ≡ s)
      ⊎ (t ≡ record s {
        trace = s.trace ++ (report_stopping (canonical_reason_from_stop_request reason) ∷ []);
      })

  pub accepts :
      (s : Service)
      → takes_stop c w reason s ≡ true
      → initiate_stop_from_request c w reason s
        ≡ (returned (canonical_reason_from_stop_request reason), requested s)
  unfolding initiate_stop_from_request ◌>>=◌ call
  accepts s h = ground arith

  -- A request to stop that cannot be taken raises, and changes nothing but that the report of it may
  -- have been tried.
  pub request-Refused :
      (s : Service)
      → takes_stop c w reason s ≡ false
      → did_return (initiate_stop_from_request c w reason s).0 ≡ false
        × Refused s (initiate_stop_from_request c w reason s).1
  unfolding initiate_stop_from_request ◌>>=◌ call
  request-Refused s h = ground arith

  -- A request to stop that can be taken returns the canonical reason. From then on every further
  -- request raises, with nothing reported to the runtime manager and nothing changed, and the `stop`
  -- that follows resolves to the accepted reason, whatever reason it is called with itself.
  pub accepted_request_decides :
      (s : Service)
      → takes_stop c w reason s ≡ true
      → (v : World) (later : Text) (code message : Option Text)
      → initiate_stop_from_request c w reason s
          ≡ (returned (canonical_reason_from_stop_request reason), requested s)
        × (initiate_stop_from_request c v later (requested s)
              ≡ (raised stop_already_in_progress, requested s)
            × (resolve_stop (requested s) code message).0
              ≡ canonical_reason_from_stop_request reason)
  unfolding initiate_stop_from_request resolve_stop ◌>>=◌
  accepted_request_decides s h v later code message = (accepts s h, ground arith)

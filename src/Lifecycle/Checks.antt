-- ===== src/Lifecycle/Checks.antt =====
-- What decides whether `start` returns.
use swr_ddd.Common.{
  ◌≡◌, refl, Bool, true, false, not, ◌&&◌, ◌||◌, Option, none, some, NoneType, Outcome, returned,
  raised, did_return, is_some, Bool-cases, inl, inr, arith, sym, ◌∙◌,
}
use swr_ddd.Lifecycle.{
  Config, World, Service, Exec, Error, Exn, StartupStep, pure, raise, when, record_startup_step,
  emit_periodic_heartbeat, emit_srm_runtime_status, bring_up, go_live, guarded, handle, raise_some,
  initialize_strategy_coordinator, bind_strategy, launch_spec_mismatch, start, ◌>>=◌, ◌>>◌, gets,
  modify, call, create_strategy, bind_and_start_strategy,
}
use swr_ddd.Lifecycle.Logic.{otherwise}
use swr_ddd.Lifecycle.Total.{
  Raises, Raises-first, Raises-later, Raises-raise, Total, total_rules, IsCalm,
}
use swr_ddd.Lifecycle.Returning.{set_phase-Total}
use swr_ddd.Lifecycle.Started.{fail_start-Raises}

-- The validated metadata match, the bootstrap pipeline reports no failure, and the strategy, if
-- there is a manager that makes one, is bound and started well.
abbrev pub passes : Config → World → Bool
passes c w =
    w.validated_matches
    && (not (is_some w.bootstrap_failure) && (not c.has_strategy_manager || w.bind_ok))

module _ (c : Config) (w : World) (calm : IsCalm w) where
  startup_step-Total : (k : StartupStep) → Total (record_startup_step c w k)
  unfolding record_startup_step
  startup_step-Total k = search (total_rules) depth 8

  raise_some-Total : (o : Option Exn) → is_some o ≡ false → Total (raise_some c w o)
  raise_some-Total none h = search total_rules
  raise_some-Total (some e) h = cc

  raise_some-Raises : (o : Option Exn) → is_some o ≡ true → Raises (raise_some c w o)
  raise_some-Raises none h = cc
  raise_some-Raises (some e) h = Raises-raise _

  unless-Total : (b : Bool) (e : Error) → b ≡ true → Total (when (not b) (raise e))
  unfolding when pure
  unless-Total true e h = record { at = λ s. refl }
  unless-Total false e h = cc

  unless-Raises : (b : Bool) (e : Error) → b ≡ false → Raises (when (not b) (raise e))
  unfolding when
  unless-Raises true e h = cc
  unless-Raises false e h = Raises-raise e

  -- the strategy is made and bound, and then the rest
  bound-Total :
      (rest : Exec NoneType)
      → (not c.has_strategy_manager || w.bind_ok) ≡ true
      → Total rest
      → Total (initialize_strategy_coordinator c w >> (bind_strategy c w >> rest))
  unfolding initialize_strategy_coordinator bind_strategy when pure call gets modify ◌>>=◌
  bound-Total rest h t = elim (Bool-cases c.has_strategy_manager) [
    | inl has ↦
        let bound : w.bind_ok ≡ true = ground arith in
        record {
          at = λ s. rw (has, calm create_strategy, calm bind_and_start_strategy, bound) (t.at _);
        }
    | inr has ↦ record { at = λ s. rw has (t.at _) }
  ]

  bound-Raises :
      (rest : Exec NoneType)
      → (not c.has_strategy_manager || w.bind_ok) ≡ false
      → Raises (initialize_strategy_coordinator c w >> (bind_strategy c w >> rest))
  unfolding initialize_strategy_coordinator bind_strategy when pure raise call gets modify ◌>>=◌
  bound-Raises rest h =
      let has : c.has_strategy_manager ≡ true = ground arith in
      let unbound : w.bind_ok ≡ false = ground arith in
      record {
        at = λ s. rw (has, calm create_strategy, calm bind_and_start_strategy, unbound) refl;
      }

  bring_up-Total : passes c w ≡ true → Total (bring_up c w)
  unfolding bring_up
  bring_up-Total h =
      let bound : (not c.has_strategy_manager || w.bind_ok) ≡ true = ground arith in
      let bootstrapped = raise_some-Total w.bootstrap_failure (ground arith) in
      let matched = unless-Total w.validated_matches launch_spec_mismatch (ground arith) in
      let strategy = λ (rest : Exec NoneType) (t : Total rest). bound-Total rest bound t in
      search (strategy, total_rules, startup_step-Total) depth 60

  mismatch-Raises : w.validated_matches ≡ false → Raises (bring_up c w)
  unfolding bring_up
  mismatch-Raises h =
      let matched = unless-Raises w.validated_matches launch_spec_mismatch h in
      search (matched, Raises-first, Raises-later) depth 12

  failure-Raises : is_some w.bootstrap_failure ≡ true → Raises (bring_up c w)
  unfolding bring_up
  failure-Raises h =
      let bootstrapped = raise_some-Raises w.bootstrap_failure h in
      search (bootstrapped, Raises-first, Raises-later) depth 24

  unbound-Raises : (not c.has_strategy_manager || w.bind_ok) ≡ false → Raises (bring_up c w)
  unfolding bring_up
  unbound-Raises h =
      let strategy = λ (rest : Exec NoneType). bound-Raises rest h in
      search (strategy, Raises-later) depth 40

  bring_up-Raises : passes c w ≡ false → Raises (bring_up c w)
  bring_up-Raises h = elim (Bool-cases w.validated_matches) [
    | inr mismatch ↦ mismatch-Raises mismatch
    | inl matches ↦ elim (Bool-cases (is_some w.bootstrap_failure)) [
      | inl failed ↦ failure-Raises failed
      | inr bootstrapped ↦ unbound-Raises (ground arith)
    ]
  ]

  heartbeat-Total : Total (emit_periodic_heartbeat c w)
  unfolding emit_periodic_heartbeat emit_srm_runtime_status
  heartbeat-Total = search (total_rules) depth 12

  go_live-Total : Total (go_live c w)
  unfolding go_live
  go_live-Total =
      let moved = set_phase-Total c w calm in
      let beat = heartbeat-Total in search (total_rules, startup_step-Total) depth 40

  handled_returns :
      (r : Outcome Error NoneType) (s : Service) → did_return (handle c w r s).0 ≡ did_return r
  handled_returns (returned tt) s = refl
  handled_returns (raised e) s = (fail_start-Raises c w e).at s

  guarded_returns :
      (m : Exec NoneType) (s : Service) → did_return (guarded c w m s).0 ≡ did_return (m s).0
  unfolding guarded
  guarded_returns m s = handled_returns (m s).0 (m s).1

  body_returns : (s : Service) → did_return ((bring_up c w >> go_live c w) s).0 ≡ passes c w
  body_returns s = elim (Bool-cases (passes c w)) [
    | inl passed ↦
        let up = bring_up-Total passed in
        let both : Total (bring_up c w >> go_live c w) = search (total_rules, go_live-Total) in
        both.at s ∙ sym passed
    | inr refused ↦
        let both : Raises (bring_up c w >> go_live c w) =
          Raises-first _ _ (bring_up-Raises refused) in
        both.at s ∙ sym refused
  ]

  -- When no call raises, a `start` of a worker that is not started returns exactly if the validated
  -- metadata match, the bootstrap pipeline reports no failure, and the strategy, if there is a
  -- manager that makes one, is bound and started well.
  pub start_exactly : (s : Service) → s.started ≡ false → did_return (start c w s).0 ≡ passes c w
  unfolding start ◌>>=◌
  start_exactly s h =
      otherwise (λ r. did_return r.0 ≡ passes c w) s.started _ _ s h
        (guarded_returns (bring_up c w >> go_live c w) s ∙ body_returns s)

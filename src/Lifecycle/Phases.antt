-- ===== src/Lifecycle/Phases.antt =====
-- `_set_phase`, the status reports, and the periodic heartbeat.
use swr_ddd.Common.{
  Bool, not, ◌&&◌, ◌||◌, Option, none, some, [], ◌∷◌, ◌++◌, if◌then◌else◌, NoneType,
}
use swr_ddd.Common.Text.{Text}
use swr_ddd.Phase.{WorkerPhase, ready, running, failed, phase_eq}
use swr_ddd.Reason.{normalize}
use swr_ddd.Lifecycle.State.{
  Config, World, Exec, StartupStep, ShutdownStep, StatusSource, heartbeat, update, journal_phase,
  journal_startup_step, on_startup_step, journal_shutdown_step, on_shutdown_step, emit_heartbeat,
  pure, gets, modify, when, attempt, call, ◌>>=◌, ◌>>◌,
}

-- `self._phase in (WorkerPhase.READY, WorkerPhase.RUNNING)`
abbrev pub ready_or_running : WorkerPhase → Bool
ready_or_running p = phase_eq p ready || phase_eq p running

module _ (c : Config) (w : World) where
  -- `_emit_srm_runtime_status`
  unfoldable pub emit_srm_runtime_status : StatusSource → Option Text → Exec NoneType
  emit_srm_runtime_status source reason_code = do
    known ← gets (λ s. s.has_dependencies)
    phase ← gets (λ s. s.phase)
    when known (call w (emit_heartbeat phase source reason_code))

  abbrev normalized_option : Option Text → Option Text
  normalized_option none = none
  normalized_option (some r) = some (normalize r)

  -- the `elif phase is WorkerPhase.FAILED` branch of `_set_phase`
  unfoldable pub report_failed : WorkerPhase → Option Text → Exec NoneType
  report_failed phase reason_code = do
    busy ← gets (λ s. s.shutdown_in_progress)
    when (phase_eq phase failed && not busy)
        (attempt (emit_srm_runtime_status update (normalized_option reason_code)))

  unfoldable pub set_phase : WorkerPhase → Option Text → Exec NoneType
  unfolding report_failed emit_srm_runtime_status
  set_phase phase reason_code = do
    previous ← gets (λ s. s.phase)
    modify (λ s. record s { phase = phase })
    report_failed phase reason_code
    when c.has_journal (call w (journal_phase (some previous) phase reason_code))

  unfoldable pub emit_periodic_heartbeat : Exec NoneType
  unfolding emit_srm_runtime_status
  emit_periodic_heartbeat = do
    busy ← gets (λ s. s.shutdown_in_progress)
    known ← gets (λ s. s.has_dependencies)
    phase ← gets (λ s. s.phase)
    if busy
        then pure tt
        else if not known
        then pure tt
        else if not (ready_or_running phase)
        then pure tt
        else emit_srm_runtime_status heartbeat none

  unfoldable pub record_startup_step : StartupStep → Exec NoneType
  record_startup_step step = do
    modify (λ s. record s { startup_steps = s.startup_steps ++ (step ∷ []) })
    when c.has_journal (call w (journal_startup_step step))
    when c.has_on_step (call w (on_startup_step step))

  unfoldable pub record_shutdown_step : ShutdownStep → Exec NoneType
  record_shutdown_step step = do
    modify (λ s. record s { shutdown_steps = s.shutdown_steps ++ (step ∷ []) })
    when c.has_journal (call w (journal_shutdown_step step))
    when c.has_on_step (call w (on_shutdown_step step))

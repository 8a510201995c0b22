-- ===== src/Reason/Stop/Report.antt =====
-- What a stop request of any text is reported as.
use swr_ddd.Common.{◌≡◌, refl, ◌↔◌, Bool, true, false, if◌then◌else◌}
use swr_ddd.Common.Text.{Text}
use swr_ddd.Reason.{
  RuntimeWorkerReasonCode, reason_value, text, policy_violation, normalize, kubernetes_termination,
  unhealthy_execution_detected,
}
use swr_ddd.Reason.Canonical.{IsCanonical, normalize-IsCanonical}
use swr_ddd.Reason.Stop.{
  canonical_reason_from_stop_request, is_failure_shutdown, shutdown_swr_reason_code,
  shutdown_health_status, healthy, unhealthy, kubernetes_termination_reason,
}

by_default-IsCanonical : (t : Text) → IsCanonical (normalize t)
unfolding normalize
by_default-IsCanonical t = normalize-IsCanonical (text t) policy_violation

kubernetes-IsCanonical : IsCanonical kubernetes_termination_reason
unfolding reason_value
kubernetes-IsCanonical = (kubernetes_termination, refl)

if_IsCanonical :
    (b : Bool) {s t : Text} → IsCanonical s → IsCanonical t → IsCanonical (if b then s else t)
if_IsCanonical true p q = p
if_IsCanonical false p q = q

-- Whatever a stop request says, its canonical reason is the value of a member of
-- `RuntimeWorkerReasonCode`.
pub stop_reason-IsCanonical :
    (reason : Text) → IsCanonical (canonical_reason_from_stop_request reason)
unfolding canonical_reason_from_stop_request
stop_reason-IsCanonical reason =
    search (if_IsCanonical, by_default-IsCanonical, kubernetes-IsCanonical) depth 8

-- Of the canonical reasons exactly `UNHEALTHY_EXECUTION_DETECTED` is a failed shutdown, and the
-- health reported with a reason is unhealthy for that one and healthy for every other.
pub failure_exactly :
    (c : RuntimeWorkerReasonCode)
    → ((is_failure_shutdown (reason_value c) ≡ true) ↔ (c ≡ unhealthy_execution_detected))
      × (shutdown_health_status (shutdown_swr_reason_code (reason_value c))
          ≡ (if is_failure_shutdown (reason_value c) then unhealthy else healthy))
unfolding is_failure_shutdown shutdown_health_status reason_value
failure_exactly unhealthy_execution_detected = ((λ h. refl, λ e. refl), refl)
failure_exactly _ = ((λ h. cc, λ e. cc), refl)

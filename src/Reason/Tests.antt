-- ===== src/Reason/Tests.antt =====
-- The theorems on reasons at concrete reasons.
use swr_ddd.Common.Text.{codes}
use swr_ddd.Reason.{text, policy_violation, normalize_runtime_reason_code}
use swr_ddd.Reason.Canonical.{IsCanonical, normalize-IsCanonical}

normalize_example :
    IsCanonical
      (normalize_runtime_reason_code (text (codes " sdk_contract_invalid ")) policy_violation)
normalize_example = normalize-IsCanonical (text (codes " sdk_contract_invalid ")) policy_violation

-- ===== src/Reason/Canonical.antt =====
-- Every raw reason normalises to a canonical code, which stays as it is under a second pass, and
-- every normalised reason has an error code.
use swr_ddd.Common.{
  ◌≡◌, refl, true, Option, none, some, List, [], ◌∷◌, arith, map, Bool-cases, inl, inr, returned,
}
use swr_ddd.Common.Text.{Text, text_eq, text_eq_iff, member, strip}
use swr_ddd.Reason.{
  RuntimeWorkerReasonCode, reason_value, all_reason_codes, runtime_worker_reason_codes, GivenReason,
  nothing, text, code, normalize_raw, normalize_runtime_reason_code, normalize, find_code,
  worker_error_code_for_reason, error_value, error_for_reason, value_or, policy_violation,
}

-- a member of the enum whose value is the text
abbrev pub IsCanonical : Text → Type 0
IsCanonical t = (c : RuntimeWorkerReasonCode) × (t ≡ reason_value c)

member-IsCanonical :
    (t : Text) (cs : List RuntimeWorkerReasonCode)
    → member t (map reason_value cs) ≡ true
    → IsCanonical t
unfolding member
member-IsCanonical t [] h = ground arith
member-IsCanonical t (c ∷ cs) h = elim (Bool-cases (text_eq t (reason_value c))) [
  | inl same ↦ (c, (text_eq_iff t (reason_value c)).0 same)
  | inr other ↦ member-IsCanonical t cs (rw other at h)
]

value_or-IsCanonical :
    (o : Option RuntimeWorkerReasonCode) (d : RuntimeWorkerReasonCode) → IsCanonical (value_or o d)
value_or-IsCanonical none d = (d, refl)
value_or-IsCanonical (some c) d = (c, refl)

normalize_raw-IsCanonical :
    (raw : Text) (d : RuntimeWorkerReasonCode) → IsCanonical (normalize_raw raw d)
unfolding normalize_raw
normalize_raw-IsCanonical [] d = (d, refl)
normalize_raw-IsCanonical (x ∷ xs) d =
    elim (Bool-cases (member (x ∷ xs) runtime_worker_reason_codes)) [
      | inl known ↦ rw known (member-IsCanonical (x ∷ xs) all_reason_codes known)
      | inr unknown_raw ↦ rw unknown_raw (value_or-IsCanonical _ d)
    ]

-- Whatever the argument and the default, `normalize_runtime_reason_code` returns the value of a
-- member of `RuntimeWorkerReasonCode`.
pub normalize-IsCanonical :
    (value : GivenReason) (d : RuntimeWorkerReasonCode)
    → IsCanonical (normalize_runtime_reason_code value d)
unfolding normalize_runtime_reason_code
normalize-IsCanonical nothing d = (d, refl)
normalize-IsCanonical (text t) d = normalize_raw-IsCanonical (strip t) d
normalize-IsCanonical (code c) d = (c, refl)

normalize_value :
    (c d : RuntimeWorkerReasonCode)
    → normalize_runtime_reason_code (text (reason_value c)) d ≡ reason_value c
unfolding normalize_runtime_reason_code
normalize_value RuntimeWorkerReasonCode.stop_requested d = refl
normalize_value _ d = refl

-- A normalised reason is left alone by a second normalisation, also under another default.
pub normalize_idem :
    (value : GivenReason) (d e : RuntimeWorkerReasonCode)
    → normalize_runtime_reason_code (text (normalize_runtime_reason_code value d)) e
      ≡ normalize_runtime_reason_code value d
normalize_idem value d e =
    let (c, same) = normalize-IsCanonical value d in rw same (normalize_value c e)

find_value : (c : RuntimeWorkerReasonCode) → find_code (reason_value c) all_reason_codes ≡ some c
unfolding find_code text_eq reason_value
find_value RuntimeWorkerReasonCode.stop_requested = refl
find_value _ = refl

-- `worker_error_code_for_reason` never raises, and its result is the error code of the member that
-- the reason normalises to.
pub worker_error_code_total :
    (reason : Text)
    → (c : RuntimeWorkerReasonCode) × (normalize reason ≡ reason_value c)
      × (worker_error_code_for_reason reason ≡ returned (error_value (error_for_reason c)))
unfolding worker_error_code_for_reason normalize
worker_error_code_total reason =
    let (c, same) = normalize-IsCanonical (text reason) policy_violation in
    let e : normalize reason ≡ reason_value c = same in (c, e, rw (e, find_value c))

-- ===== src/Persistence/Attempts.antt =====
-- `SQLiteLaunchAttemptRepository`, `SQLiteHeartbeatRepository` and `SQLiteDiagnosticRepository`. What
-- `ORDER BY` does with the rows is a parameter.
use swr_ddd.Common.{
  ℤ, pos, negsuc, Bool, false, ◌&&◌, Option, none, some, List, ◌==◌, Outcome, returned, raised,
  ◌>>=◌,
}
use swr_ddd.Common.Text.{Text, text_eq}
use swr_ddd.Common.Dict.{Dict}
use swr_ddd.Persistence.Wire.{
  Datetime, StoreError, integrity_error, read_option, read_all, to_wire_ts, from_wire_ts,
}
use swr_ddd.Persistence.Sql.{Table, first}
use swr_ddd.Persistence.WorkerEvents.{Json, to_json, from_json}

-- `ORDER BY` of a text column and of a number column
pub record Ordering (Row : Type 0) : Type 0 where
  pub ascending : (Row → Text) → List Row → List Row
  pub descending : (Row → Text) → List Row → List Row
  pub ascending_number : (Row → ℤ) → List Row → List Row

abbrev int_eq : ℤ → ℤ → Bool
int_eq (pos m) (pos n) = m == n
int_eq (negsuc m) (negsuc n) = m == n
int_eq _ _ = false

-- T is the type of times, P that of details
pub record Attempt (T P : Type 0) : Type 0 where
  pub runtime_id : Text
  pub launch_attempt : ℤ
  pub state : Text
  pub reason_code : Option Text
  pub occurred_at : T
  pub observed_at : T
  pub correlation_id : Option Text
  pub causation_id : Option Text
  pub details : P

pub record Observation (T P : Type 0) : Type 0 where
  pub runtime_id : Text
  pub launch_attempt : ℤ
  pub occurred_at : T
  pub observed_at : T
  pub correlation_id : Option Text
  pub causation_id : Option Text
  pub details : P

-- a diagnostic is an observation with its type, stage and reason
pub record Diagnostic (T P : Type 0) : Type 0 where
  pub observation : Observation T P
  pub diagnostic_type : Text
  pub stage : Option Text
  pub reason_code : Option Text

abbrev inserted : {State : Type 0} → Option State → Outcome StoreError State
inserted none = raised integrity_error
inserted (some s) = returned s

module _ (d : Datetime) (j : Json) where
  abbrev Details : Type 0
  Details = Option (Dict j.Value)

  -- the columns of an observation
  abbrev observation_row :
      Observation d.Moment Details → Outcome StoreError (Observation Text (Option Text))
  observation_row o = do
    occurred ← to_wire_ts d o.occurred_at
    observed ← to_wire_ts d o.observed_at
    details ← to_json j o.details
    returned (record {
      runtime_id = o.runtime_id;
      launch_attempt = o.launch_attempt;
      occurred_at = occurred;
      observed_at = observed;
      correlation_id = o.correlation_id;
      causation_id = o.causation_id;
      details = details;
    })

  abbrev observation_of_row :
      Observation Text (Option Text) → Outcome StoreError (Observation d.Moment (Dict j.Value))
  observation_of_row row = do
    occurred ← from_wire_ts d row.occurred_at
    observed ← from_wire_ts d row.observed_at
    details ← from_json j row.details
    returned (record {
      runtime_id = row.runtime_id;
      launch_attempt = row.launch_attempt;
      occurred_at = occurred;
      observed_at = observed;
      correlation_id = row.correlation_id;
      causation_id = row.causation_id;
      details = details;
    })

  module _ (T : Table (Attempt Text (Option Text)))
      (o : Ordering (Attempt Text (Option Text))) where
    unfoldable pub append_attempt : Attempt d.Moment Details → T.State → Outcome StoreError T.State
    unfolding to_wire_ts
    append_attempt a s = do
      occurred ← to_wire_ts d a.occurred_at
      observed ← to_wire_ts d a.observed_at
      details ← to_json j a.details
      inserted (
          T.insert
            record {
              runtime_id = a.runtime_id;
              launch_attempt = a.launch_attempt;
              state = a.state;
              reason_code = a.reason_code;
              occurred_at = occurred;
              observed_at = observed;
              correlation_id = a.correlation_id;
              causation_id = a.causation_id;
              details = details;
            }
            s)

    abbrev attempt_of_row :
        Attempt Text (Option Text) → Outcome StoreError (Attempt d.Moment (Dict j.Value))
    attempt_of_row row = do
      occurred ← from_wire_ts d row.occurred_at
      observed ← from_wire_ts d row.observed_at
      details ← from_json j row.details
      returned (record {
        runtime_id = row.runtime_id;
        launch_attempt = row.launch_attempt;
        state = row.state;
        reason_code = row.reason_code;
        occurred_at = occurred;
        observed_at = observed;
        correlation_id = row.correlation_id;
        causation_id = row.causation_id;
        details = details;
      })

    abbrev is_attempt : Text → ℤ → Attempt Text (Option Text) → Bool
    is_attempt runtime_id launch_attempt row =
        text_eq row.runtime_id runtime_id && int_eq row.launch_attempt launch_attempt

    unfoldable pub get_attempt :
        Text → ℤ → T.State → Outcome StoreError (Option (Attempt d.Moment (Dict j.Value)))
    unfolding from_wire_ts
    get_attempt runtime_id launch_attempt s =
        read_option attempt_of_row (first (T.select (is_attempt runtime_id launch_attempt) s))

    unfoldable pub list_attempts :
        Text → T.State → Outcome StoreError (List (Attempt d.Moment (Dict j.Value)))
    unfolding from_wire_ts
    list_attempts runtime_id s = read_all attempt_of_row (
        o.ascending_number (λ row. row.launch_attempt)
          (T.select (λ row. text_eq row.runtime_id runtime_id) s))

    abbrev with_outcome :
        Text
        → Option Text
        → Text
        → Text
        → Option Text
        → Attempt Text (Option Text)
        → Attempt Text (Option Text)
    with_outcome state reason_code occurred observed details row = record row {
      state = state;
      reason_code = reason_code;
      occurred_at = occurred;
      observed_at = observed;
      details = details;
    }

    unfoldable pub mark_outcome :
        Text
        → ℤ
        → Text
        → Option Text
        → d.Moment
        → d.Moment
        → Details
        → T.State
        → Outcome StoreError T.State
    unfolding to_wire_ts
    mark_outcome runtime_id launch_attempt state reason_code occurred_at observed_at details s = do
      occurred ← to_wire_ts d occurred_at
      observed ← to_wire_ts d observed_at
      written ← to_json j details
      returned
          (T.update (is_attempt runtime_id launch_attempt)
            (with_outcome state reason_code occurred observed written) s).1

  module _ (T : Table (Observation Text (Option Text)))
      (o : Ordering (Observation Text (Option Text))) where
    unfoldable pub append_observation :
        Observation d.Moment Details → T.State → Outcome StoreError T.State
    unfolding to_wire_ts
    append_observation observation s = do
      row ← observation_row observation
      inserted (T.insert row s)

    abbrev of_runtime : Text → T.State → List (Observation Text (Option Text))
    of_runtime runtime_id s = T.select (λ row. text_eq row.runtime_id runtime_id) s

    unfoldable pub list_observations :
        Text → T.State → Outcome StoreError (List (Observation d.Moment (Dict j.Value)))
    unfolding from_wire_ts
    list_observations runtime_id s =
        read_all observation_of_row (o.ascending (λ row. row.observed_at) (of_runtime runtime_id s))

    unfoldable pub latest_for_runtime :
        Text → T.State → Outcome StoreError (Option (Observation d.Moment (Dict j.Value)))
    unfolding from_wire_ts
    latest_for_runtime runtime_id s =
        read_option observation_of_row
          (first (o.descending (λ row. row.observed_at) (of_runtime runtime_id s)))

  module _ (T : Table (Diagnostic Text (Option Text)))
      (o : Ordering (Diagnostic Text (Option Text))) where
    unfoldable pub append_diagnostic :
        Diagnostic d.Moment Details → T.State → Outcome StoreError T.State
    unfolding to_wire_ts
    append_diagnostic diagnostic s = do
      row ← observation_row diagnostic.observation
      inserted (
          T.insert
            record {
              observation = row;
              diagnostic_type = diagnostic.diagnostic_type;
              stage = diagnostic.stage;
              reason_code = diagnostic.reason_code;
            }
            s)

    abbrev diagnostic_of_row :
        Diagnostic Text (Option Text) → Outcome StoreError (Diagnostic d.Moment (Dict j.Value))
    diagnostic_of_row row = do
      observation ← observation_of_row row.observation
      returned (record {
        observation = observation;
        diagnostic_type = row.diagnostic_type;
        stage = row.stage;
        reason_code = row.reason_code;
      })

    unfoldable pub list_diagnostics :
        Text → T.State → Outcome StoreError (List (Diagnostic d.Moment (Dict j.Value)))
    unfolding from_wire_ts
    list_diagnostics runtime_id s = read_all diagnostic_of_row (
        o.ascending (λ row. row.observation.observed_at)
          (T.select (λ row. text_eq row.observation.runtime_id runtime_id) s))

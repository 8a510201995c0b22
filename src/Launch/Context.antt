-- ===== src/Launch/Context.antt =====
-- `LaunchContext` of runtime/domain/launch_context.py.
use swr_ddd.Common.{
  Bool, true, false, not, ◌&&◌, ◌||◌, Option, none, some, ℤ, below_one, Outcome, returned, raise_if,
  is_some, ◌>>=◌, ◌>>◌, NoneType,
}
use swr_ddd.Common.Text.{Text, codes, strip}
use swr_ddd.Mode.{GivenMode, typed, named, is_backtest}
use swr_ddd.Launch.Fields.{
  FieldError, field_error, require_non_empty, normalize_optional, require_mode,
}

pub record LaunchContext : Type 0 where
  pub runtime_id : Text
  pub tenant_id : Text
  pub strategy_version_id : Text
  pub mode : GivenMode
  pub artifact_uri : Text
  pub entrypoint : Text
  pub launch_attempt : ℤ
  pub parameter_hash : Option Text
  pub artifact_reference : Option Text
  pub trader_id : Option Text
  pub account_id : Option Text
  pub artifact_digest : Option Text
  pub job_id : Option Text
  pub ts_start : Option Text
  pub ts_end : Option Text
  pub correlation_id : Option Text

-- `if self.artifact_reference is None: self.artifact_reference = self.artifact_uri`
abbrev pub reference_or : Text → Option Text → Option Text
reference_or uri none = some uri
reference_or uri (some r) = some r

-- the first part of `__post_init__`, which rewrites the fields
unfoldable pub normalize_context : LaunchContext → Outcome FieldError LaunchContext
normalize_context c = do
  runtime_id ← require_non_empty c.runtime_id (codes "runtime_id")
  strategy_version_id ← require_non_empty c.strategy_version_id (codes "strategy_version_id")
  artifact_uri ← require_non_empty c.artifact_uri (codes "artifact_uri")
  parameter_hash ← normalize_optional c.parameter_hash (codes "parameter_hash")
  artifact_reference ← normalize_optional c.artifact_reference (codes "artifact_reference")
  entrypoint ← require_non_empty c.entrypoint (codes "entrypoint")
  trader_id ← normalize_optional c.trader_id (codes "trader_id")
  account_id ← normalize_optional c.account_id (codes "account_id")
  artifact_digest ← normalize_optional c.artifact_digest (codes "artifact_digest")
  job_id ← normalize_optional c.job_id (codes "job_id")
  ts_start ← normalize_optional c.ts_start (codes "ts_start")
  ts_end ← normalize_optional c.ts_end (codes "ts_end")
  correlation_id ← normalize_optional c.correlation_id (codes "correlation_id")
  mode ← require_mode c.mode
  returned (record {
    runtime_id = runtime_id;
    tenant_id = strip c.tenant_id;
    strategy_version_id = strategy_version_id;
    mode = mode;
    artifact_uri = artifact_uri;
    entrypoint = entrypoint;
    launch_attempt = c.launch_attempt;
    parameter_hash = parameter_hash;
    artifact_reference = reference_or artifact_uri artifact_reference;
    trader_id = trader_id;
    account_id = account_id;
    artifact_digest = artifact_digest;
    job_id = job_id;
    ts_start = ts_start;
    ts_end = ts_end;
    correlation_id = correlation_id;
  })

-- `mode is RuntimeMode.BACKTEST`, of an attribute that may still be a string
abbrev pub given_backtest : GivenMode → Bool
given_backtest (typed m) = is_backtest m
given_backtest (named t) = false

-- `has_trader == has_account`
abbrev pub same : Bool → Bool → Bool
same true b = b
same false b = not b

-- the second part of `__post_init__`, which only raises
unfoldable pub check_context : LaunchContext → Outcome FieldError NoneType
check_context c = do
  raise_if (below_one c.launch_attempt)
      (field_error (codes "launch_attempt") (codes "must_be_greater_or_equal_to_1"))
  raise_if (same (is_some c.trader_id) (is_some c.account_id))
      (field_error (codes "scope") (codes "exactly_one_of_trader_id_or_account_id_required"))
  raise_if (not (given_backtest c.mode) && is_some c.job_id)
      (field_error (codes "job_id") (codes "only_allowed_for_backtest_mode"))
  raise_if (not (given_backtest c.mode) && (is_some c.ts_start || is_some c.ts_end))
      (field_error (codes "parameters") (codes "ts_start_ts_end_only_allowed_for_backtest_mode"))
  raise_if (given_backtest c.mode && (not (is_some c.ts_start) || not (is_some c.ts_end)))
      (field_error (codes "parameters") (codes "ts_start_and_ts_end_required_for_backtest_mode"))

-- `__post_init__`
unfoldable pub build_context : LaunchContext → Outcome FieldError LaunchContext
build_context c = do d ← normalize_context c; check_context d; returned d

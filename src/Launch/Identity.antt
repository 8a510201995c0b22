-- ===== src/Launch/Identity.antt =====
-- `WorkerIdentity` of runtime/domain/worker_identity.py, and `LaunchContext.to_worker_identity`.
use swr_ddd.Common.{
  Option, none, some, ℤ, below_one, Outcome, returned, raise_if, is_some, ◌>>=◌, ◌>>◌, NoneType,
  if◌then◌else◌,
}
use swr_ddd.Common.Text.{Text, codes, strip, is_empty}
use swr_ddd.Mode.{GivenMode}
use swr_ddd.Launch.Fields.{
  FieldError, field_error, require_non_empty, normalize_optional, require_mode,
}
use swr_ddd.Launch.Context.{LaunchContext, same}

pub record WorkerIdentity : Type 0 where
  pub runtime_id : Text
  pub tenant_id : Text
  pub strategy_version_id : Text
  pub mode : GivenMode
  pub trader_id : Option Text
  pub account_id : Option Text
  pub validated_parameter_identity : Option Text
  pub artifact_reference : Option Text
  pub artifact_uri : Text
  pub artifact_digest : Option Text
  pub entrypoint : Text
  pub launch_attempt : ℤ

abbrev stripped_or_empty : Option Text → Text
stripped_or_empty none = codes ""
stripped_or_empty (some t) = strip t

-- `uri_candidate`: the stripped URI, or else the stripped reference
unfoldable pub uri_candidate : Text → Option Text → Text
uri_candidate uri reference =
    if is_empty (strip uri) then stripped_or_empty reference else strip uri

unfoldable pub normalize_identity : WorkerIdentity → Outcome FieldError WorkerIdentity
normalize_identity i = do
  runtime_id ← require_non_empty i.runtime_id (codes "runtime_id")
  strategy_version_id ← require_non_empty i.strategy_version_id (codes "strategy_version_id")
  artifact_uri ←
      require_non_empty (uri_candidate i.artifact_uri i.artifact_reference) (codes "artifact_uri")
  entrypoint ← require_non_empty i.entrypoint (codes "entrypoint")
  trader_id ← normalize_optional i.trader_id (codes "trader_id")
  account_id ← normalize_optional i.account_id (codes "account_id")
  parameter_identity ←
      normalize_optional i.validated_parameter_identity (codes "validated_parameter_identity")
  artifact_reference ← normalize_optional i.artifact_reference (codes "artifact_reference")
  artifact_digest ← normalize_optional i.artifact_digest (codes "artifact_digest")
  mode ← require_mode i.mode
  returned (record {
    runtime_id = runtime_id;
    tenant_id = strip i.tenant_id;
    strategy_version_id = strategy_version_id;
    mode = mode;
    trader_id = trader_id;
    account_id = account_id;
    validated_parameter_identity = parameter_identity;
    artifact_reference = artifact_reference;
    artifact_uri = artifact_uri;
    artifact_digest = artifact_digest;
    entrypoint = entrypoint;
    launch_attempt = i.launch_attempt;
  })

unfoldable pub check_identity : WorkerIdentity → Outcome FieldError NoneType
check_identity i = do
  raise_if (same (is_some i.trader_id) (is_some i.account_id)) (record {
    field_name = none;
    reason = codes "exactly_one_of_trader_id_or_account_id_required";
  })
  raise_if (below_one i.launch_attempt)
      (field_error (codes "launch_attempt") (codes "must_be_greater_or_equal_to_1"))

-- `__post_init__`
unfoldable pub build_identity : WorkerIdentity → Outcome FieldError WorkerIdentity
build_identity i = do d ← normalize_identity i; check_identity d; returned d

-- the identity that `to_worker_identity` asks for
abbrev pub identity_fields : LaunchContext → WorkerIdentity
identity_fields c = record {
  runtime_id = c.runtime_id;
  tenant_id = c.tenant_id;
  strategy_version_id = c.strategy_version_id;
  mode = c.mode;
  trader_id = c.trader_id;
  account_id = c.account_id;
  validated_parameter_identity = c.parameter_hash;
  artifact_reference = c.artifact_reference;
  artifact_uri = c.artifact_uri;
  artifact_digest = c.artifact_digest;
  entrypoint = c.entrypoint;
  launch_attempt = c.launch_attempt;
}

unfoldable pub to_worker_identity : LaunchContext → Outcome FieldError WorkerIdentity
to_worker_identity c = build_identity (identity_fields c)

-- ===== src/Launch/Tests.antt =====
-- The theorems on launch contexts at a paper launch for a trader.
use swr_ddd.Common.{◌≡◌, none, some, pos, returned, Yields}
use swr_ddd.Common.Text.{codes}
use swr_ddd.Mode.{named}
use swr_ddd.Launch.Context.{LaunchContext, build_context}
use swr_ddd.Launch.Valid.{IsNormal, IsCoherent, build_context-IsNormal}
use swr_ddd.Launch.Identified.{HasIdentity, built_context-HasIdentity}

abbrev paper_launch : LaunchContext
paper_launch = record {
  runtime_id = codes " rt-1 ";
  tenant_id = codes "";
  strategy_version_id = codes "sv-1";
  mode = named (codes "PAPER");
  artifact_uri = codes "s3://bundle";
  entrypoint = codes "main:Strategy";
  launch_attempt = pos 1;
  parameter_hash = none;
  artifact_reference = none;
  trader_id = some (codes "trader");
  account_id = none;
  artifact_digest = none;
  job_id = none;
  ts_start = none;
  ts_end = none;
  correlation_id = none;
}

build_example :
    Yields
      (λ d. IsNormal d × (IsCoherent d × build_context d ≡ returned d))
      (build_context paper_launch)
build_example = build_context-IsNormal paper_launch

identity_example : Yields HasIdentity (build_context paper_launch)
identity_example = built_context-HasIdentity paper_launch

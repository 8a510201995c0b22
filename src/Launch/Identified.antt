-- ===== src/Launch/Identified.antt =====
-- The worker identity that is made from a launch context.
use swr_ddd.Common.{
  ◌≡◌, refl, did_return, Bool, true, false, not, Option, returned, is_some, Yields, Yields-map,
  arith,
}
use swr_ddd.Common.Text.{Text}
use swr_ddd.Launch.Fields.{IsName, require_IsName, normalize_IsOptionalName, require_IsTyped}
use swr_ddd.Launch.Context.{LaunchContext, build_context, same}
use swr_ddd.Launch.Identity.{
  WorkerIdentity, normalize_identity, check_identity, build_identity, identity_fields,
  to_worker_identity, uri_candidate,
}
use swr_ddd.Launch.Valid.{IsNormal, IsCoherent, build_context-IsNormal}

candidate_kept : (uri : Text) (r : Option Text) → IsName uri → uri_candidate uri r ≡ uri
unfolding uri_candidate
candidate_kept uri r h = ground arith

normalize_identity-fixed :
    (c : LaunchContext)
    → IsNormal c
    → normalize_identity (identity_fields c) ≡ returned (identity_fields c)
unfolding normalize_identity
normalize_identity-fixed c n = rw (
  require_IsName c.runtime_id _ n.runtime_id,
  require_IsName c.strategy_version_id _ n.strategy_version_id,
  candidate_kept c.artifact_uri c.artifact_reference n.artifact_uri,
  require_IsName c.artifact_uri _ n.artifact_uri,
  require_IsName c.entrypoint _ n.entrypoint,
  normalize_IsOptionalName c.trader_id _ n.trader_id,
  normalize_IsOptionalName c.account_id _ n.account_id,
  normalize_IsOptionalName c.parameter_hash _ n.parameter_hash,
  normalize_IsOptionalName c.artifact_reference _ n.artifact_reference,
  normalize_IsOptionalName c.artifact_digest _ n.artifact_digest,
  require_IsTyped c.mode n.mode,
  n.tenant_id,
)

scope_differs : (a b : Bool) → a ≡ not b → same a b ≡ false
scope_differs true b h = ground arith
scope_differs false b h = ground arith

check_identity_passes :
    (c : LaunchContext) → IsCoherent c → check_identity (identity_fields c) ≡ returned tt
unfolding check_identity
check_identity_passes c h =
    rw (scope_differs (is_some c.trader_id) (is_some c.account_id) h.scope, h.attempt)

identity_made :
    (c : LaunchContext)
    → IsNormal c
    → IsCoherent c
    → to_worker_identity c ≡ returned (identity_fields c)
unfolding to_worker_identity build_identity
identity_made c n h = rw (normalize_identity-fixed c n, check_identity_passes c h)

-- The identity has each field of the context under its own name, and the parameter hash as its
-- validated parameter identity.
pub record Identifies (d : LaunchContext) (i : WorkerIdentity) : Type 0 where
  pub runtime_id : i.runtime_id ≡ d.runtime_id
  pub tenant_id : i.tenant_id ≡ d.tenant_id
  pub strategy_version_id : i.strategy_version_id ≡ d.strategy_version_id
  pub mode : i.mode ≡ d.mode
  pub trader_id : i.trader_id ≡ d.trader_id
  pub account_id : i.account_id ≡ d.account_id
  pub parameter_identity : i.validated_parameter_identity ≡ d.parameter_hash
  pub artifact_reference : i.artifact_reference ≡ d.artifact_reference
  pub artifact_uri : i.artifact_uri ≡ d.artifact_uri
  pub artifact_digest : i.artifact_digest ≡ d.artifact_digest
  pub entrypoint : i.entrypoint ≡ d.entrypoint
  pub launch_attempt : i.launch_attempt ≡ d.launch_attempt

-- It returned an identity of the context.
pub record HasIdentity (d : LaunchContext) : Type 0 where
  pub accepted : did_return (to_worker_identity d) ≡ true
  pub identifies : Yields (Identifies d) (to_worker_identity d)

identity-HasIdentity : (d : LaunchContext) → IsNormal d → IsCoherent d → HasIdentity d
identity-HasIdentity d n h = record {
  accepted = rw (identity_made d n h) refl;
  identifies = rw (identity_made d n h) record {
    runtime_id = refl;
    tenant_id = refl;
    strategy_version_id = refl;
    mode = refl;
    trader_id = refl;
    account_id = refl;
    parameter_identity = refl;
    artifact_reference = refl;
    artifact_uri = refl;
    artifact_digest = refl;
    entrypoint = refl;
    launch_attempt = refl;
  };
}

-- The worker identity of a context that was built is accepted, and has each field of the context
-- under its own name, with the parameter hash as its validated parameter identity.
pub built_context-HasIdentity : (c : LaunchContext) → Yields HasIdentity (build_context c)
built_context-HasIdentity c =
    Yields-map _ _ (build_context c) (λ d h. identity-HasIdentity d h.0 h.1.0)
      (build_context-IsNormal c)

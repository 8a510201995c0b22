-- ===== src/Launch/Valid.antt =====
-- What holds of every launch context that is built, and of the identity made from it.
use swr_ddd.Common.{
  ◌≡◌, refl, Bool, true, false, not, ◌&&◌, ◌||◌, Option, none, some, below_one, Outcome, returned,
  raised, is_some, NoneType, Yields, Yields-bind, arith,
}
use swr_ddd.Common.Text.{Text, strip, strip_idem}
use swr_ddd.Launch.Fields.{
  IsName, IsOptionalName, IsTyped, require_non_empty-IsName, normalize_optional-IsOptionalName,
  require_mode-IsTyped, require_IsName, normalize_IsOptionalName, require_IsTyped,
}
use swr_ddd.Launch.Context.{
  LaunchContext, normalize_context, check_context, build_context, reference_or, given_backtest,
  same,
}

-- Every field is in its normal form: names stripped and not blank, optional names too where they
-- are there, the mode a member of the enum and the artifact reference present.
pub record IsNormal (c : LaunchContext) : Type 0 where
  pub runtime_id : IsName c.runtime_id
  pub tenant_id : strip c.tenant_id ≡ c.tenant_id
  pub strategy_version_id : IsName c.strategy_version_id
  pub mode : IsTyped c.mode
  pub artifact_uri : IsName c.artifact_uri
  pub entrypoint : IsName c.entrypoint
  pub parameter_hash : IsOptionalName c.parameter_hash
  pub artifact_reference : IsOptionalName c.artifact_reference
  pub has_reference : is_some c.artifact_reference ≡ true
  pub trader_id : IsOptionalName c.trader_id
  pub account_id : IsOptionalName c.account_id
  pub artifact_digest : IsOptionalName c.artifact_digest
  pub job_id : IsOptionalName c.job_id
  pub ts_start : IsOptionalName c.ts_start
  pub ts_end : IsOptionalName c.ts_end
  pub correlation_id : IsOptionalName c.correlation_id

reference_normal :
    (uri : Text) (r : Option Text)
    → IsName uri
    → IsOptionalName r
    → IsOptionalName (reference_or uri r) × is_some (reference_or uri r) ≡ true
reference_normal uri none u h = (u, refl)
reference_normal uri (some t) u h = (h, refl)

normalize_context-IsNormal : (c : LaunchContext) → Yields IsNormal (normalize_context c)
unfolding normalize_context
normalize_context-IsNormal c =
    Yields-bind _ IsNormal _ _ (require_non_empty-IsName c.runtime_id _) λ runtime_id h1.
      Yields-bind _ IsNormal _ _ (require_non_empty-IsName c.strategy_version_id _) λ version h2.
        Yields-bind _ IsNormal _ _ (require_non_empty-IsName c.artifact_uri _) λ uri h3.
          Yields-bind _ IsNormal _ _ (normalize_optional-IsOptionalName c.parameter_hash _)
            λ hash h4.
              Yields-bind _ IsNormal _ _ (normalize_optional-IsOptionalName c.artifact_reference _)
                λ reference h5.
                  Yields-bind _ IsNormal _ _ (require_non_empty-IsName c.entrypoint _) λ entry h6.
                    Yields-bind _ IsNormal _ _ (normalize_optional-IsOptionalName c.trader_id _)
                      λ trader h7.
                        Yields-bind _ IsNormal _ _
                          (normalize_optional-IsOptionalName c.account_id _)
                          λ account h8.
                            Yields-bind _ IsNormal _ _
                              (normalize_optional-IsOptionalName c.artifact_digest _)
                              λ digest h9.
                                Yields-bind _ IsNormal _ _
                                  (normalize_optional-IsOptionalName c.job_id _)
                                  λ job h10.
                                    Yields-bind _ IsNormal _ _
                                      (normalize_optional-IsOptionalName c.ts_start _)
                                      λ from_ts h11.
                                        Yields-bind _ IsNormal _ _
                                          (normalize_optional-IsOptionalName c.ts_end _)
                                          λ to_ts h12.
                                            Yields-bind _ IsNormal _ _
                                              (normalize_optional-IsOptionalName c.correlation_id _)
                                              λ correlation h13.
                                                Yields-bind _ IsNormal _ _
                                                  (require_mode-IsTyped c.mode)
                                                  λ mode h14.
                                                    let rebuilt : LaunchContext = record {
                                                      runtime_id = runtime_id;
                                                      tenant_id = strip c.tenant_id;
                                                      strategy_version_id = version;
                                                      mode = mode;
                                                      artifact_uri = uri;
                                                      entrypoint = entry;
                                                      launch_attempt = c.launch_attempt;
                                                      parameter_hash = hash;
                                                      artifact_reference =
                                                          reference_or uri reference;
                                                      trader_id = trader;
                                                      account_id = account;
                                                      artifact_digest = digest;
                                                      job_id = job;
                                                      ts_start = from_ts;
                                                      ts_end = to_ts;
                                                      correlation_id = correlation;
                                                    } in
                                                    let normal : IsNormal rebuilt = record {
                                                      runtime_id = h1;
                                                      tenant_id = strip_idem c.tenant_id;
                                                      strategy_version_id = h2;
                                                      mode = h14;
                                                      artifact_uri = h3;
                                                      entrypoint = h6;
                                                      parameter_hash = h4;
                                                      artifact_reference =
                                                          (reference_normal uri reference h3 h5).0;
                                                      has_reference =
                                                          (reference_normal uri reference h3 h5).1;
                                                      trader_id = h7;
                                                      account_id = h8;
                                                      artifact_digest = h9;
                                                      job_id = h10;
                                                      ts_start = h11;
                                                      ts_end = h12;
                                                      correlation_id = h13;
                                                    } in
                                                    normal

reference_kept : (uri : Text) (r : Option Text) → is_some r ≡ true → reference_or uri r ≡ r
reference_kept uri none h = cc
reference_kept uri (some t) h = refl

normalize_context-fixed : (c : LaunchContext) → IsNormal c → normalize_context c ≡ returned c
unfolding normalize_context
normalize_context-fixed c n = rw (
  require_IsName c.runtime_id _ n.runtime_id,
  require_IsName c.strategy_version_id _ n.strategy_version_id,
  require_IsName c.artifact_uri _ n.artifact_uri,
  normalize_IsOptionalName c.parameter_hash _ n.parameter_hash,
  normalize_IsOptionalName c.artifact_reference _ n.artifact_reference,
  require_IsName c.entrypoint _ n.entrypoint,
  normalize_IsOptionalName c.trader_id _ n.trader_id,
  normalize_IsOptionalName c.account_id _ n.account_id,
  normalize_IsOptionalName c.artifact_digest _ n.artifact_digest,
  normalize_IsOptionalName c.job_id _ n.job_id,
  normalize_IsOptionalName c.ts_start _ n.ts_start,
  normalize_IsOptionalName c.ts_end _ n.ts_end,
  normalize_IsOptionalName c.correlation_id _ n.correlation_id,
  require_IsTyped c.mode n.mode,
  n.tenant_id,
  reference_kept c.artifact_uri c.artifact_reference n.has_reference,
)

-- The attempt is positive, the scope is one trader or one account, and a backtest has its two ends
-- while any other mode has neither ends nor a job.
pub record IsCoherent (c : LaunchContext) : Type 0 where
  pub attempt : below_one c.launch_attempt ≡ false
  pub scope : is_some c.trader_id ≡ not (is_some c.account_id)
  pub backtest_window :
      (given_backtest c.mode && not (is_some c.ts_start && is_some c.ts_end)) ≡ false
  pub no_window : (not (given_backtest c.mode) && (is_some c.ts_start || is_some c.ts_end)) ≡ false
  pub no_job : (not (given_backtest c.mode) && is_some c.job_id) ≡ false

same_scope : (a b : Bool) → same a b ≡ false → a ≡ not b
same_scope true b h = ground arith
same_scope false b h = ground arith

check_context-IsCoherent : (c : LaunchContext) → check_context c ≡ returned tt → IsCoherent c
unfolding check_context
check_context-IsCoherent c h = record {
  attempt = ground arith;
  scope = same_scope (is_some c.trader_id) (is_some c.account_id) (ground arith);
  backtest_window = ground arith;
  no_window = ground arith;
  no_job = ground arith;
}

returns_itself : {E : Type 0} (m : Outcome E NoneType) → Yields (λ _. m ≡ returned tt) m
returns_itself (returned tt) = refl
returns_itself (raised e) = tt

rebuilt_itself :
    (c : LaunchContext) → IsNormal c → check_context c ≡ returned tt → build_context c ≡ returned c
unfolding build_context
rebuilt_itself c n h = rw (normalize_context-fixed c n, h)

-- A launch context that is built has every field in its normal form and coherent with the mode and
-- the scope, and building it again changes nothing.
pub build_context-IsNormal :
    (c : LaunchContext)
    → Yields (λ d. IsNormal d × (IsCoherent d × build_context d ≡ returned d)) (build_context c)
unfolding build_context
build_context-IsNormal c =
    Yields-bind IsNormal (λ d. IsNormal d × (IsCoherent d × build_context d ≡ returned d))
      (normalize_context c) _ (normalize_context-IsNormal c)
      λ d n.
        Yields-bind (λ _. check_context d ≡ returned tt)
          (λ e. IsNormal e × (IsCoherent e × build_context e ≡ returned e)) (check_context d)
          (λ _. returned d) (returns_itself (check_context d))
          λ _ h. (n, (check_context-IsCoherent d h, rebuilt_itself d n h))

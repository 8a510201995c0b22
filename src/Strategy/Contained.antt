-- ===== src/Strategy/Contained.antt =====
-- Binding and starting the strategy.
use swr_ddd.Common.{
  ◌≡◌, refl, inl, inr, Bool, true, false, not, ◌&&◌, none, arith, Outcome, returned, raised,
  NoneType, Yields, subst, if◌then◌else◌, Bool-cases,
}
use swr_ddd.Strategy.{
  StrategyExn, ok_result, Strategy, StrategyAdapter, Answers, Result, call_hook, legacy_initialize,
  start_strategy, started_after, bind_and_start, bound, initialize,
}

module _ (s : Strategy) (answer : Answers) where
  -- A result that is well leaves the adapter marked as started.
  abbrev Marked : Result × StrategyAdapter → Type 0
  Marked (r, b) = (r.ok && not b.lifecycle_started) ≡ false

  start_marks : (a : StrategyAdapter) → Marked (start_strategy s answer a)
  unfolding start_strategy
  start_marks a = ground arith

  after_marks : (p : Result × StrategyAdapter) → Marked (started_after s answer p)
  after_marks (r, b) = elim (Bool-cases r.ok) [
    | inl went ↦ rw went (start_marks b)
    | inr stayed ↦ rw stayed refl
  ]

  record Marks (o : Outcome StrategyExn (Result × StrategyAdapter)) : Type 0 where
    at : Yields Marked o

  if-Marks :
      (b : Bool) (o p : Outcome StrategyExn (Result × StrategyAdapter))
      → (b ≡ true → Marks o)
      → Marks p
      → Marks (if b then o else p)
  if-Marks true o p m n = m refl
  if-Marks false o p m n = n

  after-Marks : (p : Result × StrategyAdapter) → Marks (returned (started_after s answer p))
  after-Marks p = record { at = after_marks p }

  bound-Marks :
      (o : Outcome StrategyExn NoneType) (a : StrategyAdapter) → Marks (bound s answer o a)
  bound-Marks (returned u) a = after-Marks (call_hook s answer false initialize a)
  bound-Marks (raised e) a = record { at = tt }

  bind_and_start-Marks : (a : StrategyAdapter) → Marks (bind_and_start s answer a)
  unfolding bind_and_start
  bind_and_start-Marks a =
      if-Marks a.lifecycle_started _ _ (λ h. record { at = ground arith })
        (if-Marks (not s.is_sdk) _ _ (λ h. after-Marks (legacy_initialize s answer a))
          (if-Marks (s.has_bridge && s.has_bind_context) _ _ (λ h. bound-Marks _ _)
            (after-Marks (call_hook s answer false initialize a))))

  -- Once the strategy was bound and started well, binding it again calls no hook and is well.
  pub bind_and_start_once :
      (a b : StrategyAdapter) (r : Result)
      → bind_and_start s answer a ≡ returned (r, b)
      → r.ok ≡ true
      → bind_and_start s answer b ≡ returned (ok_result none, b)
  unfolding bind_and_start
  bind_and_start_once a b r e ok =
      let marked = subst (λ o. Yields Marked o) e (bind_and_start-Marks a).at in ground arith

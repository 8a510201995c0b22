-- ===== src/Strategy/Single.antt =====
-- How many strategy instances there are.
use swr_ddd.Common.{
  ℕ, suc, ◌+◌, ◌≤◌, none, List, [], ◌∷◌, arith, Outcome, NoneType, if◌then◌else◌, is_some,
}
use swr_ddd.Strategy.{
  StrategyExn, StrategyAssignmentKey, StrategyInstanceManager, create, clear, stop_instance,
}

pub data Step : Type 0 where
  creates : StrategyAssignmentKey → Outcome StrategyExn ℕ → Step
  stops : Outcome StrategyExn NoneType → Step

abbrev pub take_step : StrategyInstanceManager → Step → StrategyInstanceManager
take_step m (creates key factory) = (create m key factory).1
take_step m (stops answer) = (stop_instance m answer).1

abbrev pub take_steps : StrategyInstanceManager → List Step → StrategyInstanceManager
take_steps m [] = m
take_steps m (e ∷ es) = take_steps (take_step m e) es

abbrev pub stops_in : List Step → ℕ
stops_in [] = 0
stops_in (creates key factory ∷ es) = stops_in es
stops_in (stops answer ∷ es) = suc (stops_in es)

abbrev pub no_instance : StrategyInstanceManager
no_instance = record { active = none; made = 0 }

-- the adapters made, less the one that is active
abbrev Past : StrategyInstanceManager → ℕ → Type 0
Past m n = m.made ≤ n + (if is_some m.active then 1 else 0)

create-Past :
    (m : StrategyInstanceManager) (key : StrategyAssignmentKey) (f : Outcome StrategyExn ℕ) (n : ℕ)
    → Past m n
    → Past (create m key f).1 n
unfolding create
create-Past m key f n h = ground arith

stop-Past :
    (m : StrategyInstanceManager) (o : Outcome StrategyExn NoneType) (n : ℕ)
    → Past m n
    → Past (stop_instance m o).1 (suc n)
unfolding stop_instance clear
stop-Past m o n h = ground arith

steps_bound :
    (m : StrategyInstanceManager) (es : List Step) (n : ℕ)
    → Past m n
    → (take_steps m es).made ≤ n + (1 + stops_in es)
steps_bound m [] n h = ground arith
steps_bound m (creates key f ∷ es) n h =
    steps_bound (create m key f).1 es n (create-Past m key f n h)
steps_bound m (stops o ∷ es) n h =
    let rest = steps_bound (stop_instance m o).1 es (suc n) (stop-Past m o n h) in
    omega (arith, rest)

-- A strategy instance is made only when the one before it was stopped: the instances that were made
-- are at most one more than the stops, whatever is asked for and however the calls end.
pub one_instance_per_stop : (es : List Step) → (take_steps no_instance es).made ≤ 1 + stops_in es
one_instance_per_stop es =
    let bound = steps_bound no_instance es 0 (omega arith) in omega (arith, bound)

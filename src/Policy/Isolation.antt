-- ===== src/Policy/Isolation.antt =====
-- What the modes share, and what they keep apart.
use swr_ddd.Common.{
  ◌≡◌, refl, true, not, List, [], ◌∷◌, did_return, if◌then◌else◌, Yields, Option, none, some,
}
use swr_ddd.Common.Text.{Text, codes, member}
use swr_ddd.Mode.{RuntimeMode, paper, live, backtest, is_backtest, GivenMode, typed, named, mode_of}
use swr_ddd.Policy.{
  ModePolicy, policy_of, wall_clock, simulated_clock, replay_ingress, direct_historical_lookback,
  oms_egress, manager_signal, mode_capabilities, has_capability, require_capability,
  get_mode_policy, policy_found,
}

-- the dependencies that a backtest has in common with the other modes
abbrev pub shared_dependencies : List Text
shared_dependencies = codes "strategy-runtime-manager" ∷ codes "RISK_ORDER_INTENT_EGRESS" ∷ []

-- the texts of the first list that are on the second
abbrev common : List Text → List Text → List Text
common [] ys = []
common (x ∷ xs) ys = let rest = common xs ys in if member x ys then x ∷ rest else rest

-- the clock, the replay and the lookback are those of the mode
abbrev pub Clocked : ModePolicy → Type 0
Clocked p =
    ((did_return (require_capability p simulated_clock) ≡ is_backtest p.mode)
      × (did_return (require_capability p replay_ingress) ≡ is_backtest p.mode))
    × (((did_return (require_capability p wall_clock) ≡ not (is_backtest p.mode))
          × (did_return (require_capability p direct_historical_lookback)
              ≡ not (is_backtest p.mode)))
        × ((did_return (require_capability p oms_egress) ≡ true)
            × (did_return (require_capability p manager_signal) ≡ true)))

clocks : (m : RuntimeMode) → Clocked (policy_of m)
unfolding require_capability has_capability mode_capabilities
clocks paper = ((refl, refl), ((refl, refl), (refl, refl)))
clocks live = ((refl, refl), ((refl, refl), (refl, refl)))
clocks backtest = ((refl, refl), ((refl, refl), (refl, refl)))

found-Clocked : (t : Text) (o : Option RuntimeMode) → Yields Clocked (policy_found t o)
found-Clocked t none = tt
found-Clocked t (some m) = clocks m

-- A policy that is made for a mode allows the simulated clock and the replay exactly in BACKTEST,
-- the wall clock and the direct lookback exactly in the other modes, and order intents and the
-- manager's signals in all.
pub get_mode_policy-Clocked : (g : GivenMode) → Yields Clocked (get_mode_policy g)
unfolding get_mode_policy
get_mode_policy-Clocked (typed m) = clocks m
get_mode_policy-Clocked (named t) = found-Clocked t (mode_of t)

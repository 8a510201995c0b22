-- ===== src/Mode.antt =====
-- `RuntimeMode` of runtime/domain/enums.py.
use swr_ddd.Common.{Bool, true, false, Option, none, some, if◌then◌else◌}
use swr_ddd.Common.Text.{Text, codes, text_eq}

pub data RuntimeMode : Type 0 where
  paper live backtest : RuntimeMode

unfoldable pub mode_value : RuntimeMode → Text
mode_value paper = codes "PAPER"
mode_value live = codes "LIVE"
mode_value backtest = codes "BACKTEST"

-- `mode is RuntimeMode.BACKTEST`
abbrev pub is_backtest : RuntimeMode → Bool
is_backtest backtest = true
is_backtest _ = false

-- `mode in (RuntimeMode.PAPER, RuntimeMode.LIVE)`
abbrev pub is_paper_or_live : RuntimeMode → Bool
is_paper_or_live paper = true
is_paper_or_live live = true
is_paper_or_live backtest = false

-- a mode as it is given: a member of the enum or a string
pub data GivenMode : Type 0 where
  typed : RuntimeMode → GivenMode
  named : Text → GivenMode

-- `RuntimeMode(value)`, where it is no `ValueError`
unfoldable pub mode_of : Text → Option RuntimeMode
mode_of t =
    if text_eq t (codes "PAPER")
    then some paper
    else if text_eq t (codes "LIVE")
    then some live
    else if text_eq t (codes "BACKTEST")
    then some backtest
    else none

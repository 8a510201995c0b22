-- ===== src/Events/Tests.antt =====
-- The theorems on the deduplication of signals at two concrete events.
use swr_ddd.Common.{ℕ, ◌≡◌, ◌≢◌, refl, List, [], ◌∷◌, arith}
use swr_ddd.Common.Text.{codes}
use swr_ddd.Common.Dict.{get}
use swr_ddd.Events.Dedupe.{EventKey, empty, decide, seen_before, accept, drop_stale_attempt}
use swr_ddd.Events.Dedupe.Refinement.{
  Represents, empty-Represents, decide-Represents, verdict, remember,
}
use swr_ddd.Events.Dedupe.Once.{after, accepted_once, older_attempt_dropped}

abbrev launch : ℕ → EventKey
launch n = record {
  runtime_id = codes "rt-1";
  launch_attempt = n;
  event_family = codes "runtime.started";
  event_name = codes "runtime.started";
  identity_key = codes "id";
}

decide_example :
    ((decide empty (launch 2) 1).0 ≡ verdict [] (launch 2) 1)
    × Represents (decide empty (launch 2) 1).1 (remember (verdict [] (launch 2) 1) (launch 2) [])
decide_example = decide-Represents empty [] (launch 2) 1 empty-Represents

second_accepted : (decide empty (launch 2) 1).0 ≡ accept
unfolding decide get seen_before
second_accepted = refl

abbrev between : List (EventKey × ℕ)
between = (launch 3, 1) ∷ (launch 1, 3) ∷ []

accepted_once_example :
    (decide (after (decide empty (launch 2) 1).1 between) (launch 2) 1).0 ≢ accept
accepted_once_example = accepted_once empty (launch 2) 1 second_accepted between 1

older_example :
    (decide (after (decide empty (launch 2) 1).1 between) (launch 1) 1).0 ≡ drop_stale_attempt
older_example =
    older_attempt_dropped empty (launch 2) 1 second_accepted between (launch 1) 1 refl (omega arith)

-- ===== src/MarketData/Names.antt =====
-- The names of Redis consumer groups: `sanitize_redis_stream_consumer_token` and
-- `build_market_data_consumer_group_name`.
pub mod Groups
use swr_ddd.Common.{
  take, ℕ, zero, suc, Bool, true, false, ◌&&◌, ◌||◌, Option, none, some, List, [], ◌∷◌, ◌++◌, leb,
  ◌==◌, if◌then◌else◌, ◌≡◌, refl,
}
use swr_ddd.Common.Text.{Text, codes, is_empty, strip}

-- `ch.isascii() and (ch.isalnum() or ch in "-_")`
abbrev pub is_token_char : ℕ → Bool
is_token_char c =
    (leb b'0' c && leb c b'9')
    || (leb b'A' c && leb c b'Z')
    || (leb b'a' c && leb c b'z')
    || (c == b'-')
    || (c == b'_')

-- the loop over the characters; both of its other branches append an underscore
unfoldable pub token_chars : Text → Text
token_chars [] = []
token_chars (c ∷ s) = (if is_token_char c then c else b'_') ∷ token_chars s

unfoldable pub lstrip_underscore : Text → Text
lstrip_underscore [] = []
lstrip_underscore (c ∷ s) = let rest = lstrip_underscore s in if c == b'_' then rest else c ∷ s

unfoldable pub rstrip_underscore : Text → Text
rstrip_underscore [] = []
rstrip_underscore (c ∷ s) =
    let rest = rstrip_underscore s in if (c == b'_') && is_empty rest then [] else c ∷ rest

-- `a or b` on texts
abbrev pub or_text : Text → Text → Text
or_text [] b = b
or_text (c ∷ s) b = c ∷ s

unfoldable pub sanitize_redis_stream_consumer_token : Text → ℕ → Text
unfolding token_chars lstrip_underscore rstrip_underscore
sanitize_redis_stream_consumer_token raw max_len =
    take max_len
      (or_text (rstrip_underscore (lstrip_underscore (token_chars (strip raw)))) (codes "swr"))

-- `(value or "").strip()`
abbrev pub strip_or_blank : Option Text → Text
strip_or_blank none = []
strip_or_blank (some s) = strip s

abbrev pub group_suffix : Option Text → Option Text → Text
group_suffix deployment_id runtime_id =
    or_text (strip_or_blank deployment_id) (strip_or_blank runtime_id)

unfoldable pub build_market_data_consumer_group_name : Text → Option Text → Option Text → Text
unfolding sanitize_redis_stream_consumer_token
build_market_data_consumer_group_name group_prefix deployment_id runtime_id =
    sanitize_redis_stream_consumer_token group_prefix 48
    ++ b':' ∷ sanitize_redis_stream_consumer_token (group_suffix deployment_id runtime_id) 48

group_name_example :
    build_market_data_consumer_group_name (codes " swr.md_") none (some (codes "run 7"))
    ≡ codes "swr_md:run_7"
unfolding build_market_data_consumer_group_name strip
group_name_example = refl

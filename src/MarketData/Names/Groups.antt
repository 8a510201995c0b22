-- ===== src/MarketData/Names/Groups.antt =====
-- The names of consumer groups are made of two tokens that can be read back.
use swr_ddd.Common.{
  take, ℕ, zero, suc, ◌≤◌, ◌<◌, Bool, true, false, ◌&&◌, Option, [], ◌∷◌, ◌++◌, ◌==◌, if◌then◌else◌,
  ◌≡◌, refl, arith, length,
}
use swr_ddd.Common.Text.{Text, codes, is_empty, strip}
use swr_ddd.MarketData.Names.{
  is_token_char, token_chars, lstrip_underscore, rstrip_underscore, or_text,
  sanitize_redis_stream_consumer_token, group_suffix, build_market_data_consumer_group_name,
}

abbrev pub all_token_chars : Text → Bool
all_token_chars [] = true
all_token_chars (c ∷ s) = is_token_char c && all_token_chars s

token_chars-allowed : (s : Text) → all_token_chars (token_chars s) ≡ true
unfolding token_chars
token_chars-allowed [] = refl
token_chars-allowed (c ∷ s) = ground (arith, token_chars-allowed s)

lstrip_underscore-allowed :
    (s : Text) → all_token_chars s ≡ true → all_token_chars (lstrip_underscore s) ≡ true
unfolding lstrip_underscore
lstrip_underscore-allowed [] h = refl
lstrip_underscore-allowed (c ∷ s) h = ground (arith, lstrip_underscore-allowed s)

rstrip_underscore-allowed :
    (s : Text) → all_token_chars s ≡ true → all_token_chars (rstrip_underscore s) ≡ true
unfolding rstrip_underscore
rstrip_underscore-allowed [] h = refl
rstrip_underscore-allowed (c ∷ s) h = ground (arith, rstrip_underscore-allowed s)

or_text-allowed :
    (s : Text) → all_token_chars s ≡ true → all_token_chars (or_text s (codes "swr")) ≡ true
or_text-allowed [] h = refl
or_text-allowed (c ∷ s) h = h

take-allowed : (n : ℕ) (s : Text) → all_token_chars s ≡ true → all_token_chars (take n s) ≡ true
take-allowed zero s h = refl
take-allowed (suc n) [] h = refl
take-allowed (suc n) (c ∷ s) h = ground (arith, take-allowed n s)

length-take : (n : ℕ) (s : Text) → length (take n s) ≤ n
length-take zero s = omega arith
length-take (suc n) [] = omega arith
length-take (suc n) (c ∷ s) = omega (arith, length-take n s)

take-filled : (n : ℕ) (s : Text) → 0 < n → is_empty (take n (or_text s (codes "swr"))) ≡ false
take-filled zero s h = absurd (omega arith)
take-filled (suc n) [] h = refl
take-filled (suc n) (c ∷ s) h = refl

-- a part of a Redis name: letters, digits, `-` and `_` only, not empty, not too long
pub record IsToken (max_len : ℕ) (s : Text) : Type 0 where
  pub allowed : all_token_chars s ≡ true
  pub filled : is_empty s ≡ false
  pub fits : length s ≤ max_len

pub sanitize-IsToken :
    (raw : Text) (max_len : ℕ)
    → 0 < max_len
    → IsToken max_len (sanitize_redis_stream_consumer_token raw max_len)
unfolding sanitize_redis_stream_consumer_token
sanitize-IsToken raw max_len h =
    let chars = token_chars (strip raw) in
    let left = lstrip_underscore chars in
    let stripped = rstrip_underscore left in
    let kept = lstrip_underscore-allowed chars (token_chars-allowed (strip raw)) in
    record {
      allowed =
          take-allowed max_len _ (or_text-allowed stripped (rstrip_underscore-allowed left kept));
      filled = take-filled max_len stripped h;
      fits = length-take max_len _;
    }

-- the text before the first colon, and the text after it
abbrev pub split_at_colon : Text → Text × Text
split_at_colon [] = ([], [])
split_at_colon (c ∷ s) =
    let rest = split_at_colon s in if c == b':' then ([], s) else (c ∷ rest.0, rest.1)

split-token : (s t : Text) → all_token_chars s ≡ true → split_at_colon (s ++ b':' ∷ t) ≡ (s, t)
split-token [] t h = refl
split-token (c ∷ s) t h = ground (arith, split-token s t)

-- What the runtime and the deployment get: the two tokens of a group's name.
pub record NamesGroup (group_prefix suffix group : Text) : Type 0 where
  pub prefix_token : IsToken 48 (split_at_colon group).0
  pub suffix_token : IsToken 48 (split_at_colon group).1
  pub parts : split_at_colon group ≡ (
    sanitize_redis_stream_consumer_token group_prefix 48,
    sanitize_redis_stream_consumer_token suffix 48,
  )

-- The name of a consumer group, split at its first colon, gives back the sanitized prefix and the
-- sanitized id, and each is a token of 1 to 48 letters, digits, hyphens and underscores.
pub group_name-NamesGroup :
    (group_prefix : Text) (deployment_id runtime_id : Option Text)
    → NamesGroup group_prefix
        (group_suffix deployment_id runtime_id)
        (build_market_data_consumer_group_name group_prefix deployment_id runtime_id)
unfolding build_market_data_consumer_group_name
group_name-NamesGroup group_prefix deployment_id runtime_id =
    let base = sanitize-IsToken group_prefix 48 (omega arith) in
    let suffix = sanitize-IsToken (group_suffix deployment_id runtime_id) 48 (omega arith) in
    let parts =
      split-token _
        (sanitize_redis_stream_consumer_token (group_suffix deployment_id runtime_id) 48)
        base.allowed in
    record { prefix_token = rw parts base; suffix_token = rw parts suffix; parts = parts }

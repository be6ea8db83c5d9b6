-- ===== src/Domain/Feature/Rollout.antt =====
-- A rollout only grows with its percentage, and always takes in the same users.
use clean_architecture_saas.Prelude.{ℕ, ◌<◌, String, ◌≡◌, true, false, Option, none, some, arith}
use clean_architecture_saas.Python.Int.{ℤ, pos, negsuc, ltb_ℤ}
use clean_architecture_saas.Python.Text.{str_int, parse_int}
use clean_architecture_saas.Python.Uuid.{parse_uuid}
use clean_architecture_saas.Domain.Feature.{
  UserId, int, str, uuid, text_bucket, bucket, is_in_rollout,
}

-- `a <= b`
abbrev pub AtMost : ℤ → ℤ → Type 0
AtMost a b = ltb_ℤ b a ≡ false

below_monotone : (n : ℕ) (p q : ℤ) → AtMost p q → ltb_ℤ (pos n) p ≡ true → ltb_ℤ (pos n) q ≡ true
below_monotone n (pos p) (pos q) h k = ground arith
below_monotone n (pos p) (negsuc q) h k = ground arith
below_monotone n (negsuc p) (pos q) h k = ground arith
below_monotone n (negsuc p) (negsuc q) h k = ground arith

text_bound :
    (hash : String → ℤ) (s : String) (i : Option ℤ) (n : Option ℕ) → text_bucket hash s i n < 100
text_bound hash s i (some n) = ground arith
text_bound hash s (some (pos i)) none = ground arith
text_bound hash s (some (negsuc i)) none = ground arith
text_bound hash s none none = ground arith

bucket_bound : (hash : String → ℤ) (u : UserId) → bucket hash u < 100
unfolding bucket
bucket_bound hash (uuid n) = ground arith
bucket_bound hash (int i) = text_bound hash (str_int i) (some i) (parse_uuid (str_int i))
bucket_bound hash (str s) = text_bound hash s (parse_int s) (parse_uuid s)

-- The early returns for the percentages from 100 up and from 0 down agree with the comparison that
-- follows: a known user is in the rollout exactly if its bucket is below the percentage.
rollout_lem :
    (hash : String → ℤ) (u : UserId) (p : ℤ)
    → is_in_rollout hash (some u) p ≡ ltb_ℤ (pos (bucket hash u)) p
unfolding is_in_rollout
rollout_lem hash u (pos p) = ground (arith, bucket_bound hash u)
rollout_lem hash u (negsuc p) = ground (arith, bucket_bound hash u)

-- Raising the percentage keeps every user who is in the rollout.
rollout_monotone :
    (hash : String → ℤ) (user_id : Option UserId) (p q : ℤ)
    → AtMost p q
    → is_in_rollout hash user_id p ≡ true
    → is_in_rollout hash user_id q ≡ true
unfolding is_in_rollout
rollout_monotone hash none (pos p) (pos q) a h = ground arith
rollout_monotone hash none (negsuc p) (pos q) a h = ground arith
rollout_monotone hash none (pos p) (negsuc q) a h = ground arith
rollout_monotone hash none (negsuc p) (negsuc q) a h = ground arith
rollout_monotone hash (some u) (pos p) (pos q) a h = ground arith
rollout_monotone hash (some u) (negsuc p) (pos q) a h = ground arith
rollout_monotone hash (some u) (pos p) (negsuc q) a h = ground arith
rollout_monotone hash (some u) (negsuc p) (negsuc q) a h = ground arith

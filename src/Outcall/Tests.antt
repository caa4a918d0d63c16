-- ===== src/Outcall/Tests.antt =====
-- Runs of the cache headers at concrete inputs.
use mitmania.Prelude.{ℕ, ◌≡◌, refl, Option, none, some, [], ◌∷◌, if◌then◌else◌, Bytes, codes, same}
use mitmania.Rules.Labels.{split}
use mitmania.Outcall.CacheControl.{parse_freshness}
use mitmania.Outcall.CacheControl.Cacheable.{
  forbids, last_age, said, lifetime, parse_freshness-lifetime,
}

abbrev one_digit : Bytes → Option ℕ
one_digit (c ∷ []) = some 5
one_digit s = none

abbrev never : Bytes → Option ℕ
never s = none

abbrev sample_control : Bytes
sample_control = codes "Max-Age=\"5\", must-revalidate"

lasts_five :
    lifetime one_digit never (parse_freshness one_digit never sample_control []) ≡ some 5000000000
unfolding parse_freshness same
lasts_five = refl

parse_freshness-lifetime_example :
    lifetime one_digit never (parse_freshness one_digit never sample_control []) ≡ (
      if forbids (split b',' sample_control)
      then none
      else said one_digit never (last_age one_digit never (split b',' sample_control)) [])
parse_freshness-lifetime_example = parse_freshness-lifetime one_digit never sample_control []

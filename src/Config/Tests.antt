-- ===== src/Config/Tests.antt =====
-- Runs of the reading of sizes at concrete inputs.
use mitmania.Prelude.{ℕ, ◌≡◌, refl, Option, none, some, if◌then◌else◌, Bytes, codes, same}
use mitmania.Config.Size.{parse_size}
use mitmania.Config.Size.Product.{IsRead, parse_size-IsRead}

abbrev two_numbers : Bytes → Option ℕ
two_numbers s =
    if same s (codes "64")
    then some 64
    else if same s (codes "8589934592")
    then some 8589934592
    else none

reads_kilobytes : parse_size two_numbers (codes "64K") ≡ some 65536
unfolding parse_size same
reads_kilobytes = refl

-- The product that is no positive int
reads_too_much : parse_size two_numbers (codes "8589934592g") ≡ some 9223372036854775808
unfolding parse_size same
reads_too_much = refl

parse_size-IsRead_example : IsRead two_numbers (codes "64K") (parse_size two_numbers (codes "64K"))
parse_size-IsRead_example = parse_size-IsRead two_numbers (codes "64K")

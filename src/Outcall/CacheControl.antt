-- ===== src/Outcall/CacheControl.antt =====
-- internal/outcall/cachecontrol.go: how long a broker's reply is fresh. An int64 is its word of 64 bits,
-- and a duration counts nanoseconds. Parameters: strconv.Atoi, and http.ParseTime with the time left
-- until its result. The two headers' values are arguments.
pub mod Cacheable
use mitmania.Prelude.{
  ℕ, ◌*◌, ◌%◌, ◌^◌, Bool, true, false, not, Option, none, some, List, [], ◌∷◌, ◌==◌, ◌&&◌, ltb,
  if◌then◌else◌, Bytes, codes, same, to_lower, trim_space, reverse,
}
use mitmania.Rules.Pattern.Glob.{is_empty}
use mitmania.Rules.Labels.{split}
use mitmania.Rules.Egress.{cut}

pub record Freshness : Type 0 where
  pub cacheable : Bool
  pub fresh_for : ℕ
  pub must_revalidate : Bool
  pub stale_while_revalidate : ℕ
  pub stale_if_error : ℕ

pub record CacheControl : Type 0 where
  pub no_store : Bool
  pub must_revalidate : Bool
  pub has_max_age : Bool
  pub max_age : ℕ
  pub stale_while_revalidate : ℕ
  pub stale_if_error : ℕ

abbrev pub nothing_said : CacheControl
nothing_said = record {
  no_store = false;
  must_revalidate = false;
  has_max_age = false;
  max_age = 0;
  stale_while_revalidate = 0;
  stale_if_error = 0;
}

-- `time.Duration(n) * time.Second`
abbrev pub seconds : ℕ → ℕ
seconds n = n * 1000000000 % 2 ^ 64

abbrev pub trim_quotes_left : Bytes → Bytes
trim_quotes_left [] = []
trim_quotes_left (c ∷ s) = let rest = trim_quotes_left s in if c == b'"' then rest else c ∷ s

-- `strings.Trim(s, "\"")`
abbrev pub trim_quotes : Bytes → Bytes
trim_quotes s = reverse (trim_quotes_left (reverse (trim_quotes_left s)))

abbrev pub name_and_arg : Bytes → Option (Bytes × Bytes) → Bytes × Bytes
name_and_arg dir none = (to_lower (trim_space dir), trim_quotes (trim_space []))
name_and_arg dir (some (name, arg)) = (to_lower (trim_space name), trim_quotes (trim_space arg))

-- The name and the argument of a directive, unless it is empty.
unfoldable pub directive : Bytes → Option (Bytes × Bytes)
unfolding to_lower trim_space cut
directive text =
    let dir = trim_space text in
    if is_empty dir then none else some (name_and_arg dir (cut b'=' dir))

module _ (atoi : Bytes → Option ℕ) (until : Bytes → Option ℕ) where
  abbrev pub with_max_age : CacheControl → Option ℕ → CacheControl
  with_max_age cc none = cc
  with_max_age cc (some n) = record cc { has_max_age = true; max_age = seconds n }

  abbrev pub with_stale_while_revalidate : CacheControl → Option ℕ → CacheControl
  with_stale_while_revalidate cc none = cc
  with_stale_while_revalidate cc (some n) = record cc { stale_while_revalidate = seconds n }

  abbrev pub with_stale_if_error : CacheControl → Option ℕ → CacheControl
  with_stale_if_error cc none = cc
  with_stale_if_error cc (some n) = record cc { stale_if_error = seconds n }

  -- The body of the loop over the directives.
  unfoldable pub apply_directive : CacheControl → Option (Bytes × Bytes) → CacheControl
  apply_directive cc none = cc
  apply_directive cc (some (name, arg)) =
      if same name (codes "no-store")
      then record cc { no_store = true }
      else if same name (codes "must-revalidate")
      then record cc { must_revalidate = true }
      else if same name (codes "max-age")
      then with_max_age cc (atoi arg)
      else if same name (codes "stale-while-revalidate")
      then with_stale_while_revalidate cc (atoi arg)
      else if same name (codes "stale-if-error")
      then with_stale_if_error cc (atoi arg)
      else cc

  unfoldable pub apply_directives : List Bytes → CacheControl → CacheControl
  unfolding directive apply_directive
  apply_directives [] cc = cc
  apply_directives (text ∷ more) cc = apply_directives more (apply_directive cc (directive text))

  -- `parseCacheControl`
  unfoldable pub parse_cache_control : Bytes → CacheControl
  unfolding split apply_directives
  parse_cache_control value = apply_directives (split b',' value) nothing_said

  abbrev pub not_cacheable : CacheControl → Freshness
  not_cacheable cc = record {
    cacheable = false;
    fresh_for = 0;
    must_revalidate = cc.must_revalidate;
    stale_while_revalidate = cc.stale_while_revalidate;
    stale_if_error = cc.stale_if_error;
  }

  -- The time left, where it is positive.
  abbrev pub if_positive : ℕ → ℕ
  if_positive d = if ltb 0 d && ltb d (2 ^ 63) then d else 0

  abbrev pub by_expires : CacheControl → Option ℕ → Freshness
  by_expires cc none = not_cacheable cc
  by_expires cc (some d) = record (not_cacheable cc) { cacheable = true; fresh_for = if_positive d }

  abbrev pub by_age : CacheControl → Bytes → Freshness
  by_age cc expires =
      if cc.has_max_age
      then record (not_cacheable cc) { cacheable = true; fresh_for = cc.max_age }
      else if not (is_empty expires)
      then by_expires cc (until expires)
      else not_cacheable cc

  -- `parseFreshness`
  unfoldable pub parse_freshness : Bytes → Bytes → Freshness
  unfolding parse_cache_control
  parse_freshness cache_control expires =
      let cc = parse_cache_control cache_control in
      if cc.no_store then not_cacheable nothing_said else by_age cc expires

-- ===== src/Rules/KeyTests.antt =====
-- Runs of the keys of a default rule set and of the credentials at concrete inputs.
use mitmania.Prelude.{
  ◌≡◌, refl, true, none, some, List, [], ◌∷◌, Bytes, codes, inl, arith, same, map,
}
use mitmania.Rules.Schema.{AuthConfig, BasicCredential}
use mitmania.Rules.MaskedKey.{parse_masked_key, contiguous_prefix_len, prefix_mask}
use mitmania.Rules.MaskedKey.Parsed.{IsKey, parse_masked_key-IsKey}
use mitmania.Rules.MaskedKey.Table.{contiguous_prefix_len-prefix_mask}
use mitmania.Rules.Coverage.{Prefix, check_coverage, full, gap, prefix_range}
use mitmania.Rules.Coverage.Gaps.{IsIn, check_coverage-IsIn, check_coverage-gap}
use mitmania.Rules.Auth.{
  CompiledAuth, compile_auth, parse_argon2id_hash, authenticate, verify_argon2id,
}
use mitmania.Rules.Auth.Sound.{IsSound, compile_auth-IsSound}
use mitmania.Rules.Auth.Decides.{Carries, authenticate-Carries, Carries-authenticate}
use mitmania.Rules.Egress.{cut}
use mitmania.Rules.Outcome.{done}
use mitmania.Rules.PolicySamples.{sample_addr, sample_addr-IsAddress, sample_crypto, key_v4}

contiguous_prefix_len-prefix_mask_example : contiguous_prefix_len (prefix_mask 20 4) ≡ some 20
contiguous_prefix_len-prefix_mask_example =
    contiguous_prefix_len-prefix_mask 20 4 (inl refl) (omega arith)

parsed_key :
    parse_masked_key sample_addr (λ a. a) (λ n. n ∷ []) (codes "10.0.0.0/8") ≡ some (key_v4 10 255)
unfolding parse_masked_key same
parsed_key = refl

parse_masked_key-IsKey_example : IsKey (key_v4 10 255)
parse_masked_key-IsKey_example =
    parse_masked_key-IsKey sample_addr (λ a. a) (λ n. n ∷ []) sample_addr-IsAddress
      (codes "10.0.0.0/8") (key_v4 10 255) parsed_key

abbrev everything : List Prefix
everything = record { addr = 0 ∷ 0 ∷ 0 ∷ 0 ∷ []; len = 0 } ∷ []

abbrev upper_half : List Prefix
upper_half = record { addr = 128 ∷ 0 ∷ 0 ∷ 0 ∷ []; len = 1 } ∷ []

covers_everything : check_coverage everything 32 ≡ full
unfolding check_coverage
covers_everything = refl

lower_half_open : check_coverage upper_half 32 ≡ gap 0 2147483647
unfolding check_coverage
lower_half_open = refl

check_coverage-IsIn_example : IsIn 5 (map prefix_range everything)
check_coverage-IsIn_example = check_coverage-IsIn everything 32 5 covers_everything (omega arith)

check_coverage-gap_example : ¬ IsIn 7 (map prefix_range upper_half)
check_coverage-gap_example =
    check_coverage-gap upper_half 32 0 2147483647 7 lower_half_open (omega arith) (omega arith)

abbrev sample_user : BasicCredential
sample_user = record { user = codes "u"; hash = codes "$argon2id$v$m$s$p" }

abbrev sample_auth : AuthConfig
sample_auth = record {
  http_proxy = some (record {
    required = true;
    realm = [];
    basic = sample_user ∷ [];
    bearer = [];
    broker = none;
  });
}

abbrev sample_compiled : CompiledAuth
sample_compiled = record {
  required = true;
  realm = codes "mitmania";
  basic = sample_user ∷ [];
  bearer = [];
  broker = none;
}

auth-compiles : compile_auth sample_crypto (some sample_auth) ≡ done (some sample_compiled)
unfolding compile_auth same parse_argon2id_hash
auth-compiles = refl

compile_auth-IsSound_example : IsSound sample_crypto sample_compiled
compile_auth-IsSound_example =
    compile_auth-IsSound sample_crypto (some sample_auth) sample_compiled auth-compiles

abbrev sample_header : Bytes
sample_header = codes "Basic u:p"

accepts : authenticate sample_crypto sample_compiled sample_header ≡ some (codes "u")
unfolding authenticate same
accepts = refl

authenticate-Carries_example : Carries sample_crypto sample_compiled sample_header (codes "u")
authenticate-Carries_example =
    authenticate-Carries sample_crypto sample_compiled sample_header (codes "u") accepts

carried : Carries sample_crypto sample_compiled sample_header (codes "u")
unfolding cut verify_argon2id same
carried =
    inl (codes "u:p", codes "u:p", codes "p", refl, refl, refl, (sample_user, inl refl, refl, refl))

Carries-authenticate_example :
    (accepted : Bytes) × (authenticate sample_crypto sample_compiled sample_header ≡ some accepted)
Carries-authenticate_example =
    Carries-authenticate sample_crypto sample_compiled sample_header (codes "u") carried

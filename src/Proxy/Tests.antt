-- ===== src/Proxy/Tests.antt =====
-- Runs of the proxy's decisions and of the egress policy at concrete inputs: an address is a number, and
-- a prefix holds the numbers up to its own.
use mitmania.Prelude.{
  ℕ, suc, ◌≡◌, refl, Bool, true, false, Option, none, some, List, [], ◌∷◌, ◌++◌, ◌==◌, ◌↔◌,
  if◌then◌else◌, leb, Bytes, codes, same, trim_space, inl, inr,
}
use mitmania.Prelude.Int.{pos}
use mitmania.Rules.Labels.{split, join}
use mitmania.Rules.Egress.{CompiledEgress, compile_port_range, lookup_egress}
use mitmania.Rules.Egress.Ranges.{IsOrdered, compile_port_range-IsOrdered}
use mitmania.Rules.Egress.First.{Decided, lookup_egress-Decided}
use mitmania.Headers.{Header, header_values}
use mitmania.Rules.Egress.{cut}
use mitmania.Rules.Auth.{CompiledAuth, Crypto}
use mitmania.Proxy.Gate.{explicit, passed, BrokerCall, Reply, allowed, check_auth}
use mitmania.Proxy.Gate.Admits.{IsAdmitted, check_auth-IsAdmitted}
use mitmania.Proxy.TrustedProxy.{recover_client_ip}
use mitmania.Proxy.TrustedProxy.Spoof.{IsTrusted, IsHop, recover_client_ip-forged}
use mitmania.Proxy.Retry.{Result, value, error, with_retries}
use mitmania.Proxy.Retry.First
use mitmania.Proxy.Retry.First.{with_retries-Decided}
use mitmania.Proxy.Pin.{pinned, Answer, addresses, resolve_and_pin}
use mitmania.Proxy.Pin.Checked.{IsChecked, resolve_and_pin-IsChecked}

abbrev up_to : ℕ → ℕ → Bool
up_to p addr = leb addr p

abbrev parse_number : Bytes → Option ℕ
parse_number s = if_digits s
  where
    if_digits : Bytes → Option ℕ
    if_digits (c ∷ []) = some c
    if_digits _ = none

abbrev forwarded : Header
forwarded = (codes "X-Forwarded-For", codes "1" ∷ codes "z, 2" ∷ []) ∷ []

peer-IsTrusted : IsTrusted up_to (60 ∷ []) 50
peer-IsTrusted = (60, inl refl, refl)

forwarded_values : header_values (codes "X-Forwarded-For") forwarded ≡ codes "1" ∷ codes "z, 2" ∷ []
unfolding header_values same
forwarded_values = refl

two_hops : split b',' (join b',' (codes "z, 2" ∷ [])) ≡ [] ++ codes "z" ∷ codes " 2" ∷ []
unfolding split join
two_hops = refl

z-IsHop : IsHop parse_number (codes "z") 122
unfolding trim_space
z-IsHop = (refl, refl)

two-IsHop : IsHop parse_number (codes " 2") 50
unfolding trim_space
two-IsHop = (refl, refl)

two-IsTrusted : IsTrusted up_to (60 ∷ []) 50
two-IsTrusted = (60, inl refl, refl)

not-IsTrusted : ¬ IsTrusted up_to (60 ∷ []) 122
not-IsTrusted (p, inl e, h) = cc (rw e at h)
not-IsTrusted (p, inr i, h) = elim i [ ]

recover_client_ip-forged_example : recover_client_ip parse_number up_to 50 forwarded (60 ∷ []) ≡ 122
recover_client_ip-forged_example =
    recover_client_ip-forged parse_number up_to 50 122 forwarded (60 ∷ []) (codes "1")
      (codes "z, 2") [] [] (codes " 2" ∷ []) (codes "z") peer-IsTrusted forwarded_values two_hops
      z-IsHop not-IsTrusted (inr (50, two-IsHop, two-IsTrusted), tt)

abbrev third_time : ℕ → ℕ × Result ℕ ℕ
third_time world = if world == 2 then (3, value 7) else (suc world, error world)

with_retries-Decided_example :
    First.Decided 99 third_time 4 0 (with_retries 99 third_time (pos 5) 0)
with_retries-Decided_example = with_retries-Decided 99 third_time 4 0

ports : compile_port_range (codes "80-443") ≡ some (record { always = false; lo = 80; hi = 443 })
unfolding compile_port_range same
ports = refl

compile_port_range-IsOrdered_example : IsOrdered (record { always = false; lo = 80; hi = 443 })
compile_port_range-IsOrdered_example =
    compile_port_range-IsOrdered (codes "80-443") (record { always = false; lo = 80; hi = 443 })
      ports

abbrev some_policy : List (CompiledEgress ℕ)
some_policy =
    record {
      prefix = 9;
      port = record { always = true; lo = 0; hi = 0 };
      proto = record { always = true; glob = []; re = none; suffixes = none };
      allow = true;
    }
    ∷ []

lookup_egress-Decided_example :
    Decided up_to 7 80
      (codes "http")
      some_policy
      (lookup_egress parse_number up_to (λ _. none) some_policy 7 80 (codes "http"))
lookup_egress-Decided_example =
    lookup_egress-Decided parse_number up_to (λ _. none) 7 80 (codes "http") some_policy

abbrev answer_two : Bytes → Answer ℕ Bytes
answer_two _ = addresses (3 ∷ 4 ∷ [])

abbrev no_text : ℕ → Bytes
no_text n = n ∷ []

pins_three :
    resolve_and_pin parse_number up_to
      (λ _. none)
      parse_number
      answer_two
      no_text
      (λ a b. a ++ b)
      some_policy
      (codes "host")
      (codes "80")
      (codes "http")
    ≡ some (pinned (3 ∷ codes "80"))
unfolding resolve_and_pin lookup_egress
pins_three = refl

resolve_and_pin-IsChecked_example :
    (resolve_and_pin parse_number up_to
        (λ _. none)
        parse_number
        answer_two
        no_text
        (λ a b. a ++ b)
        some_policy
        (codes "host")
        (codes "80")
        (codes "http")
      ≡ some (pinned (3 ∷ codes "80")))
    ↔ IsChecked parse_number up_to
        (λ _. none)
        parse_number
        answer_two
        no_text
        (λ a b. a ++ b)
        some_policy
        (codes "host")
        (codes "80")
        (codes "http")
        (3 ∷ codes "80")
resolve_and_pin-IsChecked_example =
    resolve_and_pin-IsChecked parse_number up_to (λ _. none) parse_number answer_two no_text
      (λ a b. a ++ b) some_policy (codes "host") (codes "80") (codes "http") (3 ∷ codes "80")

abbrev plain_crypto : Crypto
plain_crypto = record {
  decode_raw = λ s. none;
  decode_std = λ s. none;
  scan_version = λ s. none;
  scan_costs = λ s. none;
  id_key = λ password salt time memory threads n. password;
  sha256 = λ s. s;
}

abbrev broker_auth : CompiledAuth
broker_auth = record {
  required = true;
  realm = codes "r";
  basic = [];
  bearer = [];
  broker = some (record { socket = codes "/run/auth"; path = codes "/"; url = [] });
}

-- A broker that counts its calls and knows everybody.
abbrev knows_all : BrokerCall → ℕ → Reply × ℕ
knows_all call n = (allowed call.value, suc n)

passes_gate :
    check_auth plain_crypto
      (λ s. s)
      (some knows_all)
      (some broker_auth)
      explicit
      (codes "id")
      (codes "c")
      (codes "Basic joe")
      0
    ≡ (passed (codes "joe"), 1)
unfolding check_auth same cut
passes_gate = refl

check_auth-IsAdmitted_example :
    IsAdmitted plain_crypto
      (λ s. s)
      (some knows_all)
      broker_auth
      explicit
      (codes "id")
      (codes "c")
      (codes "Basic joe")
      0
      (codes "joe")
      1
check_auth-IsAdmitted_example =
    check_auth-IsAdmitted plain_crypto (λ s. s) (some knows_all) broker_auth explicit (codes "id")
      (codes "c") (codes "Basic joe") (codes "joe") 0 1 refl passes_gate

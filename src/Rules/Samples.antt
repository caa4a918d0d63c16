-- ===== src/Rules/Samples.antt =====
-- The rule file that the tests share.
use mitmania.Prelude.{Bool, true, false, Option, none, some, List, [], ◌∷◌, Bytes, codes}
use mitmania.Rules.Schema.{Params, Rule, RuleFile}
use mitmania.Rules.Pattern.{Matcher}
use mitmania.Rules.Compile.{CompiledRule}

abbrev pub no_regex : Bytes → Option (Bytes → Bool)
no_regex _ = none

abbrev pub same_key : Bytes → Bytes
same_key key = key

abbrev pub no_hash : Params → Bytes
no_hash _ = []

abbrev pub host_rule : Bytes → Rule
host_rule host = record {
  match = record {
    host = host;
    port = [];
    proto = [];
    path = [];
    method = [];
    header = [];
    status = [];
  };
  connection = none;
  mitm = some false;
  request = [];
  response = [];
}

abbrev pub anything : Matcher
anything = record { always = true; glob = []; re = none; suffixes = none }

abbrev pub glob_of : Bytes → Matcher
glob_of glob = record { always = false; glob = glob; re = none; suffixes = none }

abbrev pub suffixes_of : List Bytes → Matcher
suffixes_of hosts = record { always = false; glob = []; re = none; suffixes = some hosts }

abbrev pub compiled_host_rule : Matcher → CompiledRule
compiled_host_rule host = record {
  conn_host = host;
  conn_port = anything;
  conn_proto = anything;
  msg_path = anything;
  msg_method = anything;
  msg_header = [];
  mitm = false;
  deny = false;
  has_msg = false;
  request = [];
  response = [];
}

abbrev pub sample_file : RuleFile
sample_file = record {
  uuid = [];
  auth = none;
  http =
      host_rule (codes "*.b.c")
      ∷ host_rule (codes "re:(?i)(?:^|\\.)(?:a\\.d|b\\.c)$")
      ∷ host_rule (codes "*")
      ∷ [];
  egress = none;
}

abbrev pub sample_rules : List CompiledRule
sample_rules =
    compiled_host_rule (glob_of (codes "*.b.c"))
    ∷ compiled_host_rule (suffixes_of (codes "a.d" ∷ codes "b.c" ∷ []))
    ∷ compiled_host_rule (glob_of (codes "*"))
    ∷ []

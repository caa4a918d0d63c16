-- ===== src/Rules/Tests.antt =====
-- Runs of the rule engine at concrete inputs.
use mitmania.Prelude.{
  none, ℕ, suc, ap, length, get_elem?, ◌>>=◌, ◌+◌, ◌≡◌, refl, true, false, some, List, [], ◌∷◌,
  ◌++◌, Bytes, codes, arith, to_lower, same, less, All, In,
}
use mitmania.Prelude.Int.{pos}
use mitmania.Headers.{Header, header_values}
use mitmania.Rules.Schema.{Value, null, text, Params}
use mitmania.Rules.Compile.{CompiledAction}
use mitmania.Rules.Actions.{header_set, ResponseInterceptor}
use mitmania.Rules.Actions.Written.{header_set-written, written, or_before}
use mitmania.Rules.Outcome.{done}
use mitmania.Rules.Pattern.{Matcher, compile_matcher, matches, parse_imported_suffix_regex}
use mitmania.Rules.Pattern.Compiled.{parse_imported_suffix_regex-IsLiteral}
use mitmania.Rules.Pattern.Glob.{is_empty, path_match}
use mitmania.Rules.Pattern.Glob.Literal.{path_match-suffix}
use mitmania.Rules.Schema.{intercepts, has_message_fields}
use mitmania.Rules.Labels.{is_literal_dns_label, literal_suffix, IsHost, Covers}
use mitmania.Rules.Labels.Names.{IsLiteral}
use mitmania.Rules.Labels.Suffix.{literal_suffix-Covers}
use mitmania.Rules.Compile.{compile}
use mitmania.Rules.Compile.Valid.{IsSound, compile-IsSound}
use mitmania.Rules.HostTree.{
  build_from, insert_all, insert_host_suffix, host_labels, walk, insert_path, add_rule,
  update_child, last_is, index_keys, leaf,
}
use mitmania.Rules.HostTree.Trie.{collect}
use mitmania.Rules.HostTree.Build.{Placed, build_from-Placed}
use mitmania.Rules.HostTree.Keys.{matches-Covers, glob-Covers}
use mitmania.Rules.HostIndex.{
  size, spread, sort_children, insert_kid, number_edges, node_of, Edge, bisect, edge_at,
  build_host_candidate_index, append_candidates, visit, compact_host_index,
}
use mitmania.Rules.HostIndex.Selects.{
  Fits, IsSelection, append_candidates-IsSelection, tree_of, fallback_of,
}
use mitmania.Rules.HostIndex.Flat.{visit-compact_host_index}
use mitmania.Rules.HostIndex.Bisect.{bisect-seek_edge, seek_edge, IsAscending, edge_labels}
use mitmania.Rules.RuleSet.{
  ConnInput, MsgInput, hosts_of, new_rule_set, conn_passes, conn_verdict, lookup_conn, scan,
  request_passes, lookup_request,
}
use mitmania.Rules.RuleSet.Lookup.{lookup_conn-scan, lookup_request-scan, hosts_of-IsCompiled}
use mitmania.Rules.Samples.{no_regex, same_key, no_hash, sample_file, sample_rules, suffixes_of}

sample-compiles : compile no_regex same_key no_hash sample_file ≡ done sample_rules
unfolding compile compile_matcher intercepts has_message_fields is_literal_dns_label
sample-compiles = refl

sample-Fits : Fits (hosts_of sample_rules)
unfolding build_from insert_all insert_host_suffix host_labels walk insert_path add_rule
    update_child last_is index_keys spread size sort_children insert_kid number_edges node_of
    is_literal_dns_label same less literal_suffix
sample-Fits = record { edges = omega arith; rules = omega arith; nodes = omega arith }

abbrev sample_conn : ConnInput
sample_conn = record { host = codes "x.B.c"; port = codes "443"; proto = codes "https" }

lookup_conn-scan_example :
    lookup_conn (new_rule_set {Prefix = ℕ} sample_rules [] [] none) sample_conn
    ≡ some (conn_verdict (scan (conn_passes sample_conn) sample_rules))
lookup_conn-scan_example =
    lookup_conn-scan no_regex same_key no_hash sample_file sample_rules [] [] none sample_conn
      sample-compiles sample-Fits

finds_second :
    lookup_conn (new_rule_set {Prefix = ℕ} sample_rules [] [] none) sample_conn
    ≡ some (record { mitm = false; deny = false; matched = true })
unfolding lookup_conn build_host_candidate_index is_literal_dns_label to_lower same less
finds_second = refl

abbrev sample_msg : MsgInput
sample_msg = record { conn = sample_conn; path = codes "/"; method = codes "GET"; header = [] }

lookup_request-scan_example :
    lookup_request same_key (new_rule_set {Prefix = ℕ} sample_rules [] [] none) sample_msg
    ≡ some (scan (request_passes same_key sample_msg) sample_rules)
lookup_request-scan_example =
    lookup_request-scan no_regex same_key no_hash sample_file sample_rules [] [] none sample_msg
      sample-compiles sample-Fits

compile-IsSound_example : All IsSound sample_rules
compile-IsSound_example =
    compile-IsSound no_regex same_key no_hash sample_file sample_rules sample-compiles

abbrev sample_hosts : List Matcher
sample_hosts = hosts_of sample_rules

append_candidates-IsSelection_example :
    (ids : List ℕ) × (append_candidates (build_host_candidate_index sample_hosts) (codes "x.B.c") []
      ≡ some ids)
    × IsSelection sample_hosts (codes "x.B.c") ids
append_candidates-IsSelection_example =
    append_candidates-IsSelection sample_hosts (codes "x.B.c") sample-Fits (
      hosts_of-IsCompiled sample_rules
        (compile-IsSound no_regex same_key no_hash sample_file sample_rules sample-compiles))

visit-compact_host_index_example :
    visit
      (compact_host_index (tree_of sample_hosts) (fallback_of sample_hosts))
      (codes "c" ∷ codes "b" ∷ [])
      0
      []
    ≡ some ([] ++ collect (tree_of sample_hosts) (codes "c" ∷ codes "b" ∷ []))
visit-compact_host_index_example =
    visit-compact_host_index (tree_of sample_hosts) (fallback_of sample_hosts) sample-Fits.edges
      sample-Fits.rules sample-Fits.nodes (codes "c" ∷ codes "b" ∷ []) []

sample-key :
    index_keys (suffixes_of (codes "a.d" ∷ codes "b.c" ∷ []))
    ≡ some (codes "a.d" ∷ codes "b.c" ∷ [])
unfolding index_keys
sample-key = refl

build_from-Placed_example :
    Placed
      (index_keys (suffixes_of (codes "a.d" ∷ codes "b.c" ∷ [])))
      (1 + 0)
      (build_from 0 sample_hosts leaf []).0
      (build_from 0 sample_hosts leaf []).1
build_from-Placed_example =
    build_from-Placed sample_hosts 1 0 leaf [] (suffixes_of (codes "a.d" ∷ codes "b.c" ∷ [])) refl

sample-matches : matches (suffixes_of (codes "a.d" ∷ codes "b.c" ∷ [])) (codes "x.B.c") ≡ true
unfolding matches same to_lower
sample-matches = refl

sample-imports :
    parse_imported_suffix_regex (codes "(?i)(?:^|\\.)(?:a\\.d|b\\.c)$")
    ≡ some (codes "a.d" ∷ codes "b.c" ∷ [])
unfolding parse_imported_suffix_regex is_literal_dns_label
sample-imports = refl

parse_imported_suffix_regex-IsLiteral_example : All IsLiteral (codes "a.d" ∷ codes "b.c" ∷ [])
parse_imported_suffix_regex-IsLiteral_example =
    parse_imported_suffix_regex-IsLiteral (codes "(?i)(?:^|\\.)(?:a\\.d|b\\.c)$")
      (codes "a.d" ∷ codes "b.c" ∷ []) sample-imports

matches-Covers_example :
    (q : Bytes) × In q (codes "a.d" ∷ codes "b.c" ∷ [])
    × IsHost q
    × Covers q (to_lower (codes "x.B.c"))
matches-Covers_example =
    matches-Covers (suffixes_of (codes "a.d" ∷ codes "b.c" ∷ [])) (codes "a.d" ∷ codes "b.c" ∷ [])
      (codes "x.B.c")
      (hosts_of-IsCompiled sample_rules
        (compile-IsSound no_regex same_key no_hash sample_file sample_rules sample-compiles)).1.0
      sample-key sample-matches

sample-literal : is_empty (literal_suffix (codes "*.b.c")) ≡ false
unfolding literal_suffix is_literal_dns_label
sample-literal = refl

sample-glob : path_match (codes "*.b.c") (codes "x.b.c") ≡ true
unfolding path_match
sample-glob = refl

glob-Covers_example :
    IsHost (literal_suffix (codes "*.b.c"))
    × Covers (literal_suffix (codes "*.b.c")) (codes "x.b.c")
glob-Covers_example = glob-Covers (codes "*.b.c") (codes "x.b.c") sample-literal sample-glob

path_match-suffix_example : (x : Bytes) × (codes "x.b.c" ≡ x ++ codes ".b.c")
path_match-suffix_example =
    path_match-suffix (codes "*") b'.' (codes "b.c") (codes "x.b.c")
      (refl, (refl, (refl, (refl, tt)))) sample-glob

literal_suffix-Covers_example :
    IsLiteral (literal_suffix (codes "*.b.c"))
    × Covers (literal_suffix (codes "*.b.c")) (codes "*.b.c")
literal_suffix-Covers_example = literal_suffix-Covers (codes "*.b.c") sample-literal

abbrev sample_edges : List Edge
sample_edges =
    record { label = codes "a"; target = 1 } ∷ record { label = codes "b"; target = 2 } ∷ []

sample-IsAscending : IsAscending (edge_labels sample_edges)
unfolding less
sample-IsAscending = ((refl, tt), (tt, tt))

bisect-seek_edge_example :
    (do
      lo ← bisect sample_edges (codes "b") (suc (length sample_edges)) 0 (0 + length sample_edges)
      edge_at sample_edges (codes "b") lo (0 + length sample_edges))
    ≡ some (seek_edge (codes "b") sample_edges)
bisect-seek_edge_example =
    bisect-seek_edge (codes "b") sample_edges 0 sample_edges sample-IsAscending
      (λ j h. ap (get_elem? sample_edges) (omega arith))

abbrev no_text : Value → Bytes
no_text _ = []

abbrev set_two : Params
set_two = (codes "A", text (codes "1")) ∷ (codes "B", null) ∷ []

abbrev two_headers : Header
two_headers = (codes "A", codes "0" ∷ []) ∷ (codes "B", codes "0" ∷ []) ∷ []

header_set-written_example :
    header_values (codes "B") (header_set same_key no_text set_two two_headers)
    ≡ or_before same_key no_text
        (written same_key no_text (codes "B") set_two)
        (header_values (codes "B") two_headers)
header_set-written_example = header_set-written same_key no_text (codes "B") set_two two_headers

abbrev set_action : CompiledAction
set_action = record { name = codes "header.set"; params = set_two; outcall = none }

abbrev two_response : ResponseInterceptor
two_response = record { header = two_headers; body_override = none; status_override = pos 0 }

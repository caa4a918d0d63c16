-- ===== src/Lib.antt =====
-- A model of mitmania's rule engine (internal/rules) and of decisions of its proxy (internal/proxy),
-- its outcalls (internal/outcall) and its configuration (internal/config), with proofs.
--
-- mitmania is an intercepting proxy: a client's rule file (JSON) is decoded, compiled to a list of
-- rules, indexed by host, and asked once per connection and once per request for the first rule that
-- matches. A client without a file is served by the default rule set, a table of rule files under address
-- masks; both are cached and looked up in the storage again when their version has changed. The files and
-- the code:
--   Rules/Schema: internal/rules/schema.go, the document and the reads of an action's parameters.
--   Rules/Labels, Rules/Pattern: matcher, compileMatcher and match of internal/rules/compile.go, and
--     isLiteralDNSLabel, literalGlobSuffix and parseImportedSuffixRegex of internal/rules/host_index.go.
--     Rules/Pattern/Glob is Go's path.Match; Rules/Pattern/Compiled is about compiled matchers.
--   Rules/Outcome, Rules/Compile: Compile of internal/rules/compile.go and compileOutcallAction of
--     internal/rules/outcall_action.go, with their errors as values.
--   Rules/HostTree: the tree of insertHostSuffix and buildHostCandidateIndex in
--     internal/rules/host_index.go. Rules/HostIndex: compactHostIndex, findChild, appendCandidates.
--   Rules/RuleSet: LookupConn and LookupRequest of internal/rules/engine.go.
--   Rules/MaskedKey, Rules/Coverage, Rules/DefaultRuleset, Rules/DefaultLoad:
--     internal/rules/defaultruleset.go, from the address masks to the table and its lookup. The load and
--     the lookup both end in the engine below, which keeps one table for all clients.
--   Rules/Auth: internal/rules/auth.go. Proxy/Gate: internal/proxy/auth.go, which asks it and the broker.
--   Rules/Store: internal/rules/store.go. Rules/Caches, Rules/TableCache, Rules/Engine: RuleEngine of
--     internal/rules/engine.go, whose methods take the state of the caches and of the world and give it
--     back with their result.
--   Outcall/CacheControl: internal/outcall/cachecontrol.go. Config/Size: internal/config/size.go.
--   Rules/Egress: internal/rules/egress.go and LookupEgress of internal/rules/engine.go.
--   Rules/Actions: internal/rules/actions_http.go and applyResponseActions of internal/proxy/actions.go.
--     Headers: Go's http.Header, which these and internal/proxy/trustedproxy.go use.
--   Proxy/TrustedProxy, Proxy/Retry, Proxy/Pin: internal/proxy/trustedproxy.go, internal/proxy/retry.go
--     and internal/proxy/egress.go, which asks the egress policy about every address of a host.
--   Rules/Samples, Rules/PolicySamples and the files called Tests, PolicyTests and KeyTests: a rule file, a
--     table and a store, and runs on them. Prelude: shared names and lemmas.
--
-- Modelling: a Go string is a list of bytes, taken to be ASCII where Go folds case or reads runes. A
-- map is a list of pairs with one pair for each key, and a loop over it takes the list's order.
-- The mutable tree is built by value, since no node of it is shared. 32-bit numbers wrap around; that
-- an index has less than 2 ^ 32 nodes, edges and rule numbers is a hypothesis (Fits). `none` is a panic
-- in the lookups. Fuel: the loop of compactHostIndex gets the number of nodes of the tree, the binary
-- search of findChild one round more than the node has edges. The loop takes each node once, and each
-- round of the search shortens what it searches, so both are enough. Times are numbers,
-- and an int64 is its word of 64 bits. A lock is held for single reads and writes of a cache, and the model
-- runs one lookup at a time. CompileAuth writes a default path into the rule file it is given; the places
-- that look at the file afterwards are given that path (settled). Parameters: Go's regexp.Compile (a
-- compiled regex is the function of its MatchString), textproto.CanonicalMIMEHeaderKey, encoding/json,
-- base64 and hex, the hash functions, the storage, the clock, uuid.NewString, the broker's service,
-- the hash of an action's parameters, strconv.Atoi, http.ParseTime, fmt.Sprint, the addresses and prefixes
-- of netip, the resolver's answer and net.JoinHostPort.
--
-- Not modelled: the other packages under internal and cmd, and the rest of internal/proxy and
-- internal/outcall: connection handling, storage back ends, certificates, the outcall service,
-- flags and telemetry; of internal/config all but the sizes; of internal/rules the
-- request actions that call a broker.
pub mod Prelude
pub mod Headers
pub mod Rules
pub mod Proxy
pub mod Outcall
pub mod Config

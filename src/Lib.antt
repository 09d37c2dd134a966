-- ===== src/Lib.antt =====
-- A verification library for trust-proxy, a gateway that decides by policy which traffic may leave.
--
-- The program compiles an operator's policy into the route rules of a sing-box configuration, keeps
-- the parts of the policy in small stores with a file each, and lets accounts administer it. The
-- injectors of internal/gateway read snapshots of the stores; the stores share internal/liststore;
-- the API authenticates against internal/users and limits logins by internal/api/throttle.go.
--
-- Base, Base.Text: shared lists, tests and results; what the program uses of Go's strings package.
-- Json: decoded JSON documents, the values that the injectors edit.
-- ListStore: internal/liststore/liststore.go (Add, Remove, Filter, SetNote, NoteOf, Mutate).
-- Whitelist, Blacklist, DirectList, Quarantine, FinalRoute: the store.go of the directory of that
--   name below internal, one function for each method, the store before and after it explicit.
-- Policy: pkg/apitypes/policy.go, the Permit and Route axes of roles and custom rules.
-- Gateway: internal/gateway. Gateway.Rules has the helpers of gateway.go (preludeLen, catchAllIdx,
--   isCatchAllRule), Gateway.Security is gateway_security.go, Gateway.RuleSets gateway_rulesets.go,
--   Gateway.Mode gateway_mode.go, Gateway.Allow gateway_allow.go, and Gateway.Layers the injectors
--   in the order of buildMergedConfig. Gateway.Layers.Layout states where each rule ends up, and
--   Gateway.Layers.Documents that the documents say the same. Gateway.Engine is the router of
--   sing-box as a parameter, and Gateway.Verdicts what it decides under the layers.
-- Users: internal/users/store.go; Users.Accounts and Users.Keys have the operations,
--   Users.Registry.History sequences of them, with files that other processes write in between.
-- Throttle: internal/api/throttle.go.
-- ShellQuote: internal/shellquote/shellquote.go.
-- Sessions: internal/authn/authn.go, the tokens, the tickets and the claim code.
-- Access: internal/api. Access.Table is routeLevels of access.go with levelOf and requirement,
--   Access itself the tests on a request, Access.Guard authenticate and withAuth of auth.go, over the
--   throttle, Access.Handlers the handlers that log in, and Access.Scope is scope.go. Access.Revocation puts the middleware on the registry of
--   Users and the tokens of Sessions.
-- CustomRules: internal/customrules/store.go. CustomRules has validate and idFor,
--   CustomRules.Operations the methods, CustomRules.Preservation and CustomRules.History sequences of
--   their calls; Gateway.Allow compiles the rules.
-- Posture: internal/posture/store.go. Posture.Live is snapshotLivePolicy, keepMachineFields and
--   alignLiveStores of internal/api/policysnapshot.go over the stores above, with applySlot of
--   internal/api/posture.go, and Posture.Switch is handleSetPosture. Posture.Returns has sequences of
--   switches, and Posture.Exclusions what becomes of an empty list of excluded countries.
--
-- ProxyScore: internal/proxyscore. ProxyScore.Config is config.go; of store.go ProxyScore.Tags has the
--   keys, ProxyScore.Operations what changes a record, ProxyScore.Files New, Flush and Reset, and
--   ProxyScore.Scores the scores and the views. ProxyScore.Histories has sequences of reports.
--
-- ProxyGroups: internal/proxygroups/store.go. ProxyGroups has the settings and their checks (validateGroup,
--   normalizeCodes, validateFailover), ProxyGroups.Settings NewStore, sanitize and Set, and
--   ProxyGroups.History sequences of Set. The settings of ProxyScore.Config are a part of these.
--
-- Loops are structural recursion on the lists that they run over, so there is no fuel; forceBreakerOpen has the 64 rounds of the
-- source. Numbers are
-- natural numbers: the counts are bounded by the lists, and times are nanoseconds after the epoch.
-- Go's nil and empty slices are one list, but for the excluded
-- countries of ProxyGroups, where nil is `none`. Object keys keep the order in which Go writes them where a
-- rule is made. The case of letters is that of ASCII. A write of a file succeeds or fails as an
-- argument says; a lock is held for a whole operation, so operations are functions and
-- interleavings are sequences of them.
--
-- Parameters: the router of sing-box (Gateway.Engine), Go's net package (valid addresses), regular
-- expressions, argon2id, SHA-256, random tokens, the RFC 3339 format of times, the pattern matching of
-- net/http (Access.Web, with the parsers of net/url and net), and golang-jwt, which is assumed to read
-- back the claims that it signed until they expire, at a time that it cuts itself (jwt.NewNumericDate). ProxyScore has the breakers of failsafe-go
-- (ProxyScore.Breakers, with ProxyScore.Breaking.CountsDown) and float64 (ProxyScore.Floats).
--
-- Not modelled: the injectors of outbounds, endpoints, DNS and inbounds, which run before those
-- modelled, and applyInvariants, which runs after them; the life of the data plane; the handlers of the
-- HTTP API behind the middleware but those named above, the command line, detection, history, node parsing, the outbounds of proxy groups, profiles, and the
-- deployment of exits. They are I/O, third-party formats, or parts not reached yet.
pub mod Base
pub mod Json
pub mod ListStore
pub mod Whitelist
pub mod Blacklist
pub mod DirectList
pub mod Quarantine
pub mod Policy
pub mod FinalRoute
pub mod Gateway
pub mod Users
pub mod Throttle
pub mod ShellQuote
pub mod Sessions
pub mod Access
pub mod CustomRules
pub mod Posture
pub mod ProxyScore
pub mod ProxyGroups

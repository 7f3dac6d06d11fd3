-- ===== src/Lib.antt =====
-- wga: a Kubernetes operator that gives peers access to a cluster through WireGuard. The custom
-- resources (pkgs/apis/v1beta/types.go) name peers, access rules and cluster clients. The operator
-- (operator/) gives each peer an address, brings the WireGuard device and the firewall to what the
-- resources ask for, and gives load balancer services addresses. A reconciler writes a status and then
-- calls `WGASync`, which fetches all resources and runs `wgaSync` and `nftSync` on them.
--
-- The files:
-- - Base: shared types and lemmas: byte strings (a Go string is the list of its bytes), association
--   lists for Go's maps, outcomes (a value, an error or a panic), Boolean tests.
-- - Net: package net: addresses, networks and masks, their parsing and printing. `full_mask` is
--   `FullMask` of operator/wgc.go.
-- - Api: the records of pkgs/apis/v1beta/types.go, and `Config` of operator/wga.go.
-- - WgTypes: the types of wgctrl. A key is its bytes; parsing and printing keys are parameters.
-- - PeerSync: `wgaSync` of operator/wga.go. `should_peers` and `have_peers` are its two maps, `plan` is
--   `nuconfig.Peers`, `wga_sync` the whole function. The orders in which the maps are ranged over,
--   `ConfigureDevice` and the calls that fail are parameters.
-- - Index: `maskBits`, `bigMax` and `generateIndex` of operator/wga.go, with the clock and the random
--   source as parameters. Go's big integers are natural numbers; times are after 1970.
-- - PeerReconcile: `PeerReconciler.Reconcile`, `netsAsStrings` and `randPick` of operator/wga.go. The
--   peer before the call goes in; the outcome and the peer that the API server has afterwards come out.
--   PeerReconcile/Life has the steps of users and of the operator over time.
-- - Nft: `nftSync`, `strip`, `dnsRule`, `httpRule` and `routingRule` of operator/nft.go, and in
--   Nft/Setup `checkOrCreateTable` and `checkOrCreateWGAIngressChain`. What nftables and the `nft`
--   command answer are parameters; the calls of `nft` and the rules to delete come out.
-- - Lbc: `LoadBalancerClassReconciler.Reconcile`, its filter and its helpers, of operator/lbc.go.
-- - Run: Go code that keeps a state and may end with an error, as a monad with do blocks.
-- - Wgc: `wgcSync` of operator/wgc.go. The state is the calls so far and the shared configuration. What
--   netlink and wgctrl answer is a parameter that is given all calls before; Wgc/Keeps has the rule by
--   which every run keeps what its single steps keep.
-- - ClusterClient: `ClusterClientReconciler.Reconcile` of operator/wgc.go, which calls `wgcSync` on a
--   part of its state. `collect` is the loop over the cluster clients, `conclude` the deferred label;
--   a NODE_NAME that is not set ends the program. The deferred Patch after an error has a cancelled
--   context, and does nothing.
-- - WgaSync: `Fetch` and `WGASync` of operator/wga.go, and `sysctl` of operator/nft.go. `wgaSync`
--   writes through a shared pointer into the configuration that `nftSync` gets next; that write is
--   `fill` of Nft/Filled.
-- - Format: `WgFile` and `Format` of format.go: the text of a file for wg-quick. Format/Reader is a reader
--   of such files, which the printed text is compared with.
-- - Peers: peers.go: `NewWGAPeer`, `FormatPeerIni` and the commands that call them. The events of a
--   watch are a list, which ends at the latest when the time of the context is over.
-- - Handover: what the peer reconciler prints into a status and `wgaSync` parses from it. Net/RoundTrip
--   has the text of an IPv6 address and its parse.
-- - Init: `epInit`, `wgaInit` and `readKey` of operator/wga.go and `nftInit` of operator/nft.go. The state
--   is the calls so far, the shared configuration and the two `sync.Once`.
-- - Main: the body of the command `ep` of main.go, from the environment to the arguments of `RunWGA`.
-- The files called Samples apply the theorems to concrete inputs.
--
-- Parameters and what is assumed of them: rand.Int64N and rand.IntN return a number below their
-- argument (`IsRandom`); ranging over a map visits each entry once (`IsRange`); ConfigureDevice
-- acts on its list key by key (`ActsByKey`); cidr.HostBig gives every host number below the
-- network's size (`GivesHosts`), which are IPv6 addresses and different for different numbers
-- (`NumbersHosts`). All loops are recursion on lists, so that no fuel is needed. Log calls are left
-- out.
--
-- Simplified: the exit code of `nft` is a function of its arguments, so that equal calls of one sync end
-- alike.
--
-- Not modelled: the cobra commands and the loading of the client configuration in main.go, and `RunWGA`
-- and `RunWGC`, which register the controllers; they only call the API server and the libraries. The
-- generated code is not modelled either.
pub mod Base
pub mod Net
pub mod Api
pub mod Run
pub mod WgTypes
pub mod PeerSync
pub mod Index
pub mod Nft
pub mod PeerReconcile
pub mod Lbc
pub mod Wgc
pub mod WgaSync
pub mod ClusterClient
pub mod Format
pub mod Peers
pub mod Handover
pub mod Init
pub mod Main

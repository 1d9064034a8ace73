-- ===== src/Lib.antt =====
-- Callsignet's agent csa: the policy on what passes a WireGuard tunnel.
--
-- csa reads csa.toml, peers.toml and policy.toml, puts a WireGuard device on a TUN interface, and
-- looks at every packet that passes the interface. A packet of a connection that the policy of
-- this machine allows passes and opens the connection in a memory; its answers pass by that
-- memory; all else is refused.
--
-- - Base: lists, tests, maps and results that the parts share. A Go map is an association list.
-- - Net: netip.Addr and netip.Prefix of Go's standard library, as far as the program uses them.
-- - Config (internal/config/config.go): the values of the three files. Reading and decoding them
--   is left out. The parsers of the standard library that read addresses, prefixes and dates from
--   texts are the record Parsers, a parameter of all that uses them; nothing is assumed of them.
-- - Secrets (internal/config/secret.go): ReadSecret with safePath, over what the file system answers.
--   The climb to the root has a round of fuel for each character of the path and one more.
--   Secrets/Psk is readSecrets, LoadPSK and PSKs of internal/config/config.go.
-- - Policy (internal/policy/policy.go): Rules, the decisions Inbound, Outbound, InboundICMP and
--   OutboundICMP, and in Policy/Compile the builder New. Policy/Intent reads policy.toml entry by
--   entry with no table; Policy/Refines and Policy/Outgoing compare the decisions with it.
-- - Packet (internal/policy/packet.go): Parse, RejectICMP and checksum, on lists of bytes. The
--   fold of the checksum has three rounds of fuel, which every uint32 is done with.
-- - Mss (internal/policy/mss.go): ClampMSS. The loop over the options has a round of fuel for each
--   byte of them and one more; running out is a result of its own. Mss/Announce describes the
--   packets that announce a segment size with no loop.
-- - Flow (internal/wgdev/flow.go): the memories of connections. Each method runs under the mutex and
--   is one step; histories are lists of steps. The order in which Go walks a map is a parameter,
--   which is assumed to give each entry once.
-- - Filter (internal/wgdev/filter.go): allowOut, allowIn, and the loops of Read and Write. Each
--   packet has its own rules and clock, which is read once for it. Messages are events; their texts
--   are left out. Filter/Intent compares what passes with policy.toml and the held connections.
-- - Wg (internal/wgdev/uapi.go): UAPIConfig and UAPIReload, as lists of lines. Wg/View is what the
--   configuration interface of wg documents of these lines, as an interface that the theorems take.
-- - Status (internal/wgdev/status.go): parseStatus; in Status/Sections the text cut by peers, and in
--   Status/Values what the values of one peer say.
-- - Device (internal/wgdev/device.go): Open, Reload, stillAllowed, and the questions to wg. The state
--   of wg and what it answers are parameters. Reload is one step: packets between its stores are left
--   out. Device/Life runs packets, questions and reloads one after another; a batch of packets is
--   one step there, under one set of rules. Device/Kept compares what passes after a Reload with
--   the policy.toml that it took.
-- - Config/Diff (internal/config/diff.go): what a new configuration changes. sort.Strings is a
--   parameter, which is assumed to keep the names of a list.
-- - Config/Problems, Labels, Own, Roster, Rules, Keys (internal/config/validate.go): Validate with all
--   its checks. The texts of the problems are constructors; base64, X25519 and the interfaces of the
--   machine are parameters. Policy/Roster and Policy/Validated compare Validate with New.
-- - Guard (internal/guard/guard.go, and guardConfig of cmd/csa/main.go): the rules of the table that
--   closes the direct path, and the table through Apply, Keep and Close. What nft answers is a
--   parameter of each call; a batch is taken as a whole or not at all. Guard/Verdict gives the rules
--   the meaning that nftables documents: the first that matches decides.
-- - Nat (internal/nat/nat.go, and natConfig of cmd/csa/main.go): the rules of the table that
--   translates addresses, and what they do with a connection that leaves this machine.
--   Nat/Table is that table in the kernel, through Check, Apply, Keep and Close.
-- - Listen (internal/guard/listen.go): Exposed, over the lines of the files of /proc/net, with
--   which Listen/Open compares it.
-- - Control (internal/control/status.go): how sizes are written, with six rounds of fuel, which an
--   int64 does not exceed.
-- - Reload (cmd/csa/main.go): reload, with back and rollback, over the interfaces device, gate and
--   rewriter. Reload/Agree assumes that a call that succeeds makes its part follow a configuration,
--   and takes no other part from its own; Reload/Machine is the machine with Device, Guard and Nat in
--   place of the interfaces, of which this holds.
-- - Tests: runs on concrete inputs.
--
-- Not modelled: wireguard-go, which csa only calls, the TUN and UDP sockets, the count of packets
-- from unknown addresses (internal/wgdev/bind.go), the control socket and its client, the command
-- line, key generation, the decoding of the three files, the texts of messages and of nftables
-- rules, the tables of the report, and tools/sbom.
pub mod Base
pub mod Net
pub mod Config
pub mod Secrets
pub mod Policy
pub mod Packet
pub mod Mss
pub mod Flow
pub mod Filter
pub mod Wg
pub mod Status
pub mod Device
pub mod Guard
pub mod Listen
pub mod Nat
pub mod Control
pub mod Reload
mod Tests

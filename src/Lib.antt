-- ===== src/Lib.antt =====
-- DocLink shares a folder between PCs on a local network. Each PC runs a daemon (crates/doclinkd)
-- with two planes: a data plane for other PCs and an admin plane for the owner's own user
-- interface. This library models the core of the daemon: who may do what.
--
-- A PC asks for access with a signed pair request, which waits in a bounded queue (Pairing,
-- server.rs). The owner decides; an approval becomes a grant, keyed by the fingerprint of the
-- requester's public key, in a JSON store (Store, store.rs). Each later request of that PC carries
-- signed headers (Identity, doclink-core/src/identity.rs), which the daemon checks against the
-- clock, the replay cache and the grants (Auth, auth.rs). The grant's scope says which paths may
-- be listed and read (Scope, server.rs), the owner may narrow it (Subtract, GrantAdmin and
-- ShareItem, admin.rs; Decide is the endpoint of the decision), and a download may ask for a byte
-- range (Range, server.rs). The owner may also change the settings, which a restart reads back
-- (Settings, admin.rs and config.rs). The handlers for listing, downloading, uploading and
-- searching ask all of these (Serve and Search, server.rs); the paths that clients send are
-- resolved below the published folder (ShareRoot, share.rs), and what they upload waits in a drop
-- folder until the owner accepts it (Inbox, inbox.rs). The owner's user interface is guarded by a
-- test on the Host, Origin and Referer headers (LocalGuard, admin.rs); it adds PCs, whose
-- certificate is pinned (Contacts, admin.rs and peer.rs), browses and searches them through the
-- daemon (Proxy, proxy.rs), and updates the program (Updater, updater.rs). A task drops the grants
-- that expire (Sweeper, store.rs), another asks the owners of other PCs for decisions that got
-- lost (Verifier, store.rs), and the peers that are seen on the network are kept for a while
-- (Registry, doclink-core/src/discovery.rs). The pairing endpoints are limited per address
-- (RateLimit, server.rs) and announce requests through a ring of events (Events, events.rs).
--
-- Files: Base and its children hold the shared tests, lists, maps, sorts, strings, decimal
-- numbers, results and the lossy decoding of UTF-8. Protocol is doclink-core/src/protocol.rs: the
-- structs that go over the wire and the texts that are signed. State is the daemon's state, Inner
-- of server.rs. The other modules have the names above, their functions the names of the source;
-- Pairing.Handlers are the endpoints pair_request, pair_decision and pair_status. The children of
-- a module hold its proofs, Tests the data and the runs at concrete inputs.
--
-- A handler is a function from the state, the request and the readings of the clock to the next
-- state and the answer. Texts are lists of code points, hash maps are association lists in the
-- order in which they happen to be walked, and numbers are natural numbers; where a u64 can wrap
-- around, the remainder is written out. The recursion of subtract_from_scope over the folders runs
-- on fuel, and more fuel than the removed path has characters is enough; the walk of a search over
-- the folders does too, and 20001 rounds more than it has roots are enough, one for each visit
-- that its budget allows. The search for a free name in a folder runs on fuel as well, and one
-- round more than the folder has entries is enough. A real path is a list of names, and in the
-- settings, which write it into the configuration file, the bytes of its text, a folder of the
-- inbox a map from names to files, folders and links, and every call of the operating system may
-- fail as its parameter says (the records ShareRoot.FileSystem, Inbox.Disk and
-- Updater.Apply.Machine). The search that stands in for old peers runs on fuel, of which two
-- rounds more than its budget of visits are enough. The wait for a peer is the list of snapshots
-- of the registry in its rounds. Hex, SHA-256, ed25519, serde_json, urlencoding, the clock, the
-- random bytes, the share root and the inbox as the data plane calls them (the record
-- Serve.Share), the answers of other PCs (Contacts.Lan, Proxy.Wire), the print agent
-- (Search.PrintLink), the polls of other PCs and the success of a write are parameters; the record
-- KeyLaws of Auth.Complete says what is used of hex and ed25519.
--
-- Not modelled: the HTTP server and client, TLS and certificates, mDNS, files on the disk beyond
-- the content of a store, of the drop folder and of a listing, file systems that ignore the case
-- of names, the print agent behind its operations, the timer of the update check and the script
-- that swaps the binaries, the push of a decision, the files, prints and uploads that the peer
-- proxy passes on, the format of the configuration file, the window shell and the web interface.

pub mod Base
pub mod Scope
pub mod Subtract
pub mod Store
pub mod Events
pub mod Protocol
pub mod Identity
pub mod State
pub mod Auth
pub mod Pairing
pub mod Range
pub mod RateLimit
pub mod GrantAdmin
pub mod Serve
pub mod Search
pub mod ShareRoot
pub mod Inbox
pub mod Updater
pub mod Proxy
pub mod Settings
pub mod LocalGuard
pub mod Contacts
pub mod ShareItem
pub mod Verifier
pub mod Decide
pub mod Registry
pub mod Sweeper
pub mod Tests

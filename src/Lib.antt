-- ===== src/Lib.antt =====
-- Yggdrasil: a mesh network whose nodes arrange themselves in a spanning tree and route packets
-- greedily along it. What runs between two nodes is in ironwood/network: each peer connection
-- reads packets (peers.go), decodes them (wire.go, traffic.go and the codecs of router.go and
-- pathfinder.go) and hands them to the router, an actor that keeps the signed statements by which
-- the nodes name their parents, chooses the own parent and forwards traffic. Above it, src/core
-- finds and opens links: a link begins with an exchange of metadata (src/core/version.go), and
-- nodes on one network find each other by beacons (src/multicast). The traffic between two nodes
-- that are far apart is encrypted in sessions, which change their keys as they go
-- (ironwood/encrypted).
--
-- Base         numbers, Booleans, lists and options for all files
-- Binary       encoding/binary: uvarints and big-endian integers
-- Wire         wire.go: wireChopSlice .. wireChopPath as chop_slice .. chop_path
-- Crypto       crypto.go: publicKey.equal and publicKey.less
-- Messages     traffic.go and the message types of router.go and pathfinder.go, a module for each
--              with size, encode, decode, check and bytes_for_sig by the names of the methods
-- Encrypted    ironwood/encrypted: Box is what crypto.go calls, Init has sessionInit, Session the
--              session and doSend, Receive doRecv, Manager the session manager
-- Blooms       bloomfilter.go: Codec has the methods of bloom, State and Sending those of blooms
-- Pathfinder   pathfinder.go: State has the tables, Finding the handlers
-- Map          Go's maps as association lists
-- Router       router.go: State is the struct, Infos has _update and _handleAnnounce, Penalties
--              has _getCost, _addPenalty, _getDecayedPenalty and the two that call it, Tree has
--              _getRootAndPath, _getRootAndDists, _getAncestry and _getDist, Forwarding _lookup,
--              Requests the signature requests and _becomeRoot, Neighbours addPeer and removePeer,
--              Announcing _sendAnnounces and _updateAncestries, and Fixing _fix and
--              _doMaintenance
-- Handshake    src/core/version.go, by the names of the functions
-- Multicast    src/multicast/advertisement.go: MarshalBinary and UnmarshalBinary
-- Address      src/address/address.go: SetPrefix and the two IsValid
-- Tests        the definitions at concrete inputs
--
-- A byte is a number below 256 and a uint64 a number below 2 ^ 64. `none` is an error or a panic,
-- as each definition says. The loop of wireDecodePath runs on fuel: a round takes at least one
-- byte, and a round for each byte is given; so does the loop of decodeTLV, with four. What the
-- actors run, they run one after the other, so that a handler is a function of the router's state.
-- The loops that walk up the tree run on fuel, a round for each stored announcement and one more:
-- each round visits another one of them. time.Now is an argument `now`, the same for all reads in
-- one handler; a timer is a number, and that it fires is an operation. crypto/ed25519, blake2b and
-- crypto/rand are parameters of what signs, verifies, hashes and draws, the filter library one of
-- the Bloom filters.
--
-- The handlers of the path finder call each other in a cycle: the depth of that cycle is the fuel.
-- They read the Bloom filters, and a lookup is spread by _sendMulticast with its panic.
--
-- Not modelled: the goroutines and sockets of peers.go, the packet queue, and the programs around
-- them.
pub mod Base
pub mod Binary
pub mod Wire
pub mod Crypto
pub mod Messages
pub mod Map
pub mod Router
pub mod Handshake
pub mod Multicast
pub mod Encrypted
pub mod Address
pub mod Tests
pub mod Blooms
pub mod Pathfinder

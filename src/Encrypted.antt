-- ===== src/Encrypted.antt =====
-- ironwood/encrypted: the layer that encrypts the traffic between two nodes. A session keeps the
-- keys of both ends and moves them on; the session manager keeps a session for each node.
pub mod Box
pub mod Init
pub mod Session
pub mod Receive
pub mod Manager

-- ===== src/Blooms.antt =====
-- ironwood/network/bloomfilter.go: the filters that tell a node which of its neighbours on the tree
-- lead to a key, how they are written, kept up to date, and used to spread a packet.
pub mod Filters
pub mod Codec
pub mod State
pub mod Sending

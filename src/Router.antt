-- ===== src/Router.antt =====
-- ironwood/network/router.go: the actor that keeps the spanning tree, selects a parent, and answers
-- where a packet goes next. State that Go keeps in maps of the `router` is a field of `Router`.
pub mod State
pub mod Penalties
pub mod Infos
pub mod Tree
pub mod Forwarding
pub mod Requests
pub mod Neighbours
pub mod Announcing
pub mod Fixing

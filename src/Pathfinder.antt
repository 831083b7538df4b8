-- ===== src/Pathfinder.antt =====
-- ironwood/network/pathfinder.go: pathfinder, which looks for the coordinates of the nodes that
-- traffic is addressed to, and keeps them while they are in use.
pub mod State
pub mod Finding

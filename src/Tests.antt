-- ===== src/Tests.antt =====
-- Concrete runs of the definitions, and the theorems at concrete inputs.
mod Data
mod Encrypted
mod Blooms
mod Fixing
mod Pathfinder
mod Wire
mod Messages
mod Penalties
mod Infos
mod Tree
mod Links
mod Handshake
mod Multicast
mod Address

-- ===== src/NodeIdentity.antt =====
-- net/node_identity.h and net/node_identity.cpp: the functions, and the order of node IDs.
pub mod Defs
pub mod Order
mod Tests

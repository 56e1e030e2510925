-- ===== src/IpNegotiator.antt =====
-- net/ip_negotiator.h and net/ip_negotiator.cpp: the distributed choice of a virtual address.
pub mod State
pub mod Address
pub mod Handlers
pub mod Search
pub mod Subnet
pub mod Events
pub mod Valid
pub mod Invariant
pub mod Claim
pub mod Contention
mod Tests

-- ===== src/Multiplex/Queue.antt =====
-- The queues of a manager and the order in which they are served: enqueuePacket, scheduleFlush,
-- flushPendingPackets and removeFromOrder.
pub mod Flush
pub mod Invariant
pub mod Rounds
pub mod Order
pub mod Falls
pub mod Drain

-- ===== src/Nrs.antt =====
-- The network request schedulers of the servers and of the clients' queues.
pub mod Fifo
pub mod Prio
pub mod Epoch

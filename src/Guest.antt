-- ===== src/Guest.antt =====
-- The agent in the guest (guest-agent/src), part by part.
pub mod Machine
pub mod Mounts
pub mod Proxies
pub mod Dispatch
pub mod Server
pub mod Loop
pub mod Client
pub mod Stats
pub mod Poller
pub mod Session

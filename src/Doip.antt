-- ===== src/Doip.antt =====
-- driver/eth: what the DoIP transport keeps apart from the network stack.
pub mod Mailbox
pub mod Idle
mod Tests

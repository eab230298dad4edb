-- ===== src/Netx.antt =====
-- driver/eth/doip_netx.c: the transport of DoIP over ThreadX and NetX, which are arguments.
-- The counters that only a debugger reads are left out, but for the bytes received and sent.
mod Mail
mod Stream
mod Ledger
mod Bytes
mod Order
mod Pipe
mod Route
mod Service
mod Replies
mod Tests
mod Deadline
mod Threads
mod Invariant
mod Calls
mod Answers
mod Withdrawn

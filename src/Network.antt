-- ===== src/Network.antt =====
-- What comes from and goes to the other replicas: events, their queues, the requests for missing
-- blocks, and the outbound messages. Sockets and RPC framing are left out: a message that arrives
-- is an argument, and a message that is sent is queued for the client of its replica.
pub mod Events
pub mod Fetch
pub mod Requests
pub mod Parked
pub mod Asked
pub mod Freed
pub mod Settled
pub mod Handled
pub mod Queue
pub mod Worker
pub mod Outbound
pub mod Rpc
pub mod Connected
pub mod Delivered
pub mod Answered
pub mod Retries

-- ===== src/MsgQueue.antt =====
-- a2_message_queue/msg_queue.c: handles, the backend, and the calls of the interface.
pub mod Handle
pub mod Sync
pub mod Backend
pub mod Lifecycle
pub mod Frame
pub mod Receive
pub mod Mailbox
pub mod Carries
pub mod Send
pub mod Fifo
pub mod Balance
pub mod FifoLaws
pub mod Poll
mod Tests

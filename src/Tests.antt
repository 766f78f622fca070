-- ===== src/Tests.antt =====
-- Runs of the model, and the theorems at concrete inputs: two connections, two transactions and
-- three messages.
pub mod Sample
pub mod Ids
pub mod Msgs
pub mod Peers
pub mod Wire
pub mod Xml
pub mod Dispatch
pub mod Connect
pub mod Sender
pub mod Drain
pub mod Receiver
pub mod Fifo
pub mod EchoServer
pub mod Api
pub mod Transaction
pub mod Client
pub mod Pipe
pub mod Reader
pub mod Startup
pub mod System
pub mod WorkQueue
pub mod Config
pub mod Pool
pub mod Wakeup

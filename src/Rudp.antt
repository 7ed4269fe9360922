-- ===== src/Rudp.antt =====
-- The reliable transport: packets, receiver, sender and their composition.
pub mod Packet
pub mod Message
pub mod Receiver
pub mod Float
pub mod Sender
pub mod Connection
pub mod Endpoint
pub mod Server
mod PacketTests
mod Tests

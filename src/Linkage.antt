-- ===== src/Linkage.antt =====
-- flinter/linkage: one connection.
pub mod Io
pub mod State
pub mod Framing
pub mod Receive
pub mod Send
pub mod Event
pub mod Life
mod Tests

-- ===== src/Socket.antt =====
-- src/grilio_transport_socket.c: the transport over a stream socket.
pub mod State
pub mod Read
pub mod Write
pub mod Stream
pub mod Life

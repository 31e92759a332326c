-- ===== src/Users/Socket.antt =====
-- services/users/handler/websocket/echo_handler.go.
pub mod Clients
pub mod Events
pub mod Serve

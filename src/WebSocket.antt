-- ===== src/WebSocket.antt =====
-- The WebSocket client (src/websocket.rs), RFC 6455: the frames, and the messages made of them.
mod Frame
mod Session
mod Lengths
mod RoundTrip
mod Buffer
mod Delivery
mod Tests

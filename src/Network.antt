-- ===== src/Network.antt =====
-- The networking library: network/.
pub mod Dispatcher
pub mod Engine
pub mod EventDispatcher
pub mod Connection
pub mod Acceptor
pub mod Receive
pub mod Send
pub mod Message

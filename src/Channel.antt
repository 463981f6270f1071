-- ===== src/Channel.antt =====
-- base/sources/channel: bounded channels between one producer thread and one consumer thread.
pub mod Layout
pub mod Fixed
pub mod Variable

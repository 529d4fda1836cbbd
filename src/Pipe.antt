-- ===== src/Pipe.antt =====
-- src/ioprocess.c: the framing of messages on the two pipes. A frame is the length of a message in
-- eight bytes, the low byte first, and the message.
pub mod Frame
pub mod Reader
pub mod Requests
pub mod Writer

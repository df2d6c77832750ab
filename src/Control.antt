-- ===== src/Control.antt =====
-- The control connection: src/netstr.c reads its lines, src/ftpcmdio.c makes commands of them and
-- writes the replies.
pub mod Netstr
pub mod Reply
pub mod Command

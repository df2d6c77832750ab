-- ===== src/Process.antt =====
-- The two processes of a session: the child that talks to the client, and its privileged parent.
pub mod Privsock
pub mod Privops
pub mod Login
pub mod Pasv
pub mod Broker
pub mod Asks

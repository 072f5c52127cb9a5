-- ===== src/Examples.antt =====
-- Concrete values for the parameters of the model, and runs of the code on them.
pub mod Toy
mod Inbox
mod Udp
mod Message
mod Channel
mod Client
mod Server
mod Stack
mod Programs
mod Fixed
mod Servers
mod Session
mod Only

-- ===== src/Samples.antt =====
-- Concrete inputs: a small stand-in for the libraries, and runs of the program on it.
pub mod Codec
pub mod Shop
pub mod Bank
pub mod Network
mod Witnesses
mod Gates
mod Payments
mod Restart
mod Peers
mod Silent
mod Twice
mod Sessions
mod Daemons

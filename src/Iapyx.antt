-- ===== src/Iapyx.antt =====
-- iapyx: the wallet that tests and load generators vote with.
pub mod Controller
pub mod Wallet
pub mod Backend
pub mod Load
pub mod Session
pub mod Qr
pub mod VitStation
pub mod Proxy
mod Scenarios

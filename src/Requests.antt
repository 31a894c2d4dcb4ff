-- ===== src/Requests.antt =====
-- The one-shot objects of a chain scan: the request builders and requests of bdk-ffi/src/types.rs, and
-- the clients of electrum.rs and esplora.rs, which take the requests.
pub mod Cell
pub mod Library
pub mod World
pub mod Electrum
pub mod Esplora
pub mod Commands
pub mod Later
pub mod Refused
pub mod Spent
pub mod Pipeline
pub mod Waits
pub mod Once
pub mod Reported
pub mod Conservation

-- ===== src/Tests.antt =====
-- The bindings on small stand-ins for the libraries, with the theorems of the results applied to them.
mod Codec
mod Primitives
mod Bitcoin
mod Builder
mod Requests
mod Keys
mod Descriptor
mod Psbt
mod Locks
mod Positions
mod Wallet
mod Rounds
mod Spending
mod Views

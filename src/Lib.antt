-- ===== src/Lib.antt =====
-- bdk-ffi: the bindings of the Bitcoin Development Kit to other languages (bdk-ffi/src).
--
-- The crate wraps the types of `bdk_wallet` and its companions so that code in Kotlin, Swift or
-- Python can hold them. The parts of it that keep or share state are modelled here
-- with the values and errors that they exchange.
--
--   * A `TxBuilder` or `BumpFeeTxBuilder` (bdk-ffi/src/tx_builder.rs) is an immutable record.
--     Each fluent method gives a new one, and `finish` locks the wallet and drives the library's
--     own builder by the fields. Builder/Fluent.antt and Builder/BumpFee.antt have the records
--     and the methods, Builder/Finish.antt and Builder/BumpFee.antt have `finish`, statement by
--     statement and with its early returns. Builder/Inner.antt is the library's builder, a
--     parameter with one operation for each method that is called. Builder/History.antt is a
--     chain of fluent calls, Builder/Calls.antt the list of calls that the fields ask for, and
--     Builder/Verdict.antt what the bindings themselves refuse.
--   * The request builders and the requests of a chain scan (bdk-ffi/src/types.rs) hold their
--     content under a lock, as an option that is taken out once. `Wallet::start_full_scan` and
--     `Wallet::start_sync_with_revealed_spks` (bdk-ffi/src/wallet.rs) make the builders; the
--     clients of bdk-ffi/src/electrum.rs and bdk-ffi/src/esplora.rs take the requests.
--     Requests/Cell.antt is such a cell, Requests/World.antt all of them with the methods,
--     Requests/Electrum.antt and Requests/Esplora.antt the scans, and Requests/Commands.antt any
--     sequence of the calls, which stands for any interleaving, as each call takes its one lock
--     once.
--   * A PSBT (bdk-ffi/src/bitcoin.rs) is shared and stands behind a lock. `Wallet::sign` and
--     `Wallet::finalize_psbt` (bdk-ffi/src/wallet.rs) change one in place; its own methods work on
--     copies. Psbt/Store.antt is the store of all of them, Psbt/Methods.antt has the methods, and
--     Psbt/Commands.antt any sequence of those that make or change one.
--   * A `Wallet` (bdk-ffi/src/wallet.rs) is the library's wallet behind a lock, and a `Connection`
--     (bdk-ffi/src/store.rs) its database. Wallet/Methods.antt has the methods, where one that
--     changes the wallet gives the changed one, and Wallet/Store.antt those that use a connection.
--     Wallet/Library.antt is the library's wallet, a parameter. Wallet/Rounds.antt is foreign code
--     that brings a wallet up to date by a scan, and Spending.antt foreign code that builds, signs
--     and sends a transaction, each as the calls that it makes on the parts above.
--   * Keys and descriptors (bdk-ffi/src/keys.rs, bdk-ffi/src/descriptor.rs) are values. The files
--     under Keys/ have derivation, extension and the step to public keys, Descriptor.antt has the
--     constructors of descriptors, whose `unwrap` and `unreachable!` are the outcome `panics`.
--     Keys/Mnemonic.antt has mnemonics, over the generator of random numbers.
--   * What the wallet and the clients know is shown as records and trees of plain values
--     (bdk-ffi/src/types.rs): Views/Records.antt has the records, Views/Policy.antt the spending
--     policies, which are shown one level at a time, and Views/Satisfaction.antt how far they are
--     satisfied. Bitcoin/Address.antt and Bitcoin/Transaction.antt have the addresses and
--     transactions of bdk-ffi/src/bitcoin.rs. Clients/Electrum.antt and Clients/Esplora.antt have
--     what the clients are asked apart from scans.
--
-- Wallets, PSBTs, connections, requests and derivation paths each have a lock. Locks/Methods.antt
-- says in which order each method takes and releases locks, and Locks/Threads.antt has threads
-- that call methods at once, under any schedule. A lock that a panic has poisoned is left out.
--
-- Types/LockTime.antt has the lock times of bdk-ffi/src/types.rs, and the files under Errors/ have
-- the errors of bdk-ffi/src/error.rs with the conversions from the libraries' errors, which every
-- other part uses. Extern.antt has the Bitcoin types and functions that the source takes from
-- third-party crates: types and functions without a definition. What a theorem needs of them is a
-- hypothesis or a record of laws, and Tests.antt has instances at which the laws hold.
--
-- Prelude/ has Rust's `Result`, `HashSet` as a list without duplicates, `HashMap` as a list of
-- entries, the monad for code that changes a builder and may stop, and list functions over native
-- numbers. Integers are natural numbers; a cast with `as` keeps the low bits. `Arc` and `clone`
-- leave no trace in values that nothing changes. The source needs no fuel, since every loop of it
-- runs over a list. `walk` of Views/Policy/Walk.antt stands for foreign code that goes down a
-- policy; it is given a number of levels, and the depth of the policy is enough.
--
-- Not modelled: the network, the database and the cryptography of the libraries, what an Electrum
-- or Esplora server answers, the texts that errors print, and the generated bindings.
pub mod Prelude
pub mod Extern
pub mod Errors
pub mod Types
pub mod Builder
pub mod Requests
pub mod Psbt
pub mod Locks
pub mod Keys
pub mod Descriptor
pub mod Bitcoin
pub mod Clients
pub mod Spending
pub mod Views
pub mod Wallet
pub mod Tests

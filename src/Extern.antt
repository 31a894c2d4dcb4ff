-- ===== src/Extern.antt =====
-- The types and functions of the Bitcoin libraries that the bindings are built on. They are not
-- part of the repository, so the model takes them as a parameter.
use bdk_ffi.Prelude.{ℕ, String, List, Option}

-- `bdk_wallet::KeychainKind` and `ChangeSpendPolicy`, which `bdk.udl` spells out.
pub data KeychainKind : Type 0 where
  external internal : KeychainKind

pub data ChangeSpendPolicy : Type 0 where
  change_allowed only_change change_forbidden : ChangeSpendPolicy

pub record Primitives : Type 1 where
  -- The width of `usize` on the target.
  pub usize_bits : ℕ
  pub Script : Type 0
  pub Amount : Type 0
  pub FeeRate : Type 0
  pub OutPoint : Type 0
  pub outpoint_discrete : Discrete OutPoint
  pub Txid : Type 0
  -- `Txid::from_str`, whose error the bindings drop.
  pub parse_txid : String → Option Txid
  -- `absolute::Height` and `absolute::Time`: `from_consensus` with its error dropped, and
  -- `to_consensus_u32`.
  pub Height : Type 0
  pub Time : Type 0
  pub height_from : ℕ → Option Height
  pub time_from : ℕ → Option Time
  pub height_to : Height → ℕ
  pub time_to : Time → ℕ
  -- `PushBytesBuf::try_from`
  pub PushBytes : Type 0
  pub push_bytes : List ℕ → Option PushBytes
  -- The payloads of the libraries' errors, with `Display` and `Debug`.
  pub Payload : Type 0
  pub to_string : Payload → String
  pub debug : Payload → String
  -- `DisplayHex::to_lower_hex_string`
  pub lower_hex : Payload → String
  pub outpoint_string : OutPoint → String
  pub txid_string : Txid → String
  -- `PersistedWallet` and `Psbt`, which several parts of the bindings hold.
  pub Wallet : Type 0
  pub Psbt : Type 0

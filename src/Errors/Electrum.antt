-- ===== src/Errors/Electrum.antt =====
-- `ElectrumError` of bdk-ffi/src/error.rs, the library's error that it stands for, and the conversion.
use bdk_ffi.Prelude.{String}
use bdk_ffi.Extern.{Primitives}

-- `ElectrumError`
pub data ElectrumError : Type 0 where
  io_error : String → ElectrumError
  json : String → ElectrumError
  hex : String → ElectrumError
  protocol : String → ElectrumError
  bitcoin : String → ElectrumError
  already_subscribed : ElectrumError
  not_subscribed : ElectrumError
  invalid_response : String → ElectrumError
  message : String → ElectrumError
  invalid_dns_name_error : String → ElectrumError
  missing_domain : ElectrumError
  all_attempts_errored : ElectrumError
  shared_io_error : String → ElectrumError
  couldnt_lock_reader : ElectrumError
  mpsc : ElectrumError
  could_not_create_connection : String → ElectrumError
  request_already_consumed : ElectrumError

-- The library's error, over what its variants carry.
pub data BdkElectrumError (V : Type 0) : Type 0 where
  io_error : V → BdkElectrumError V
  json : V → BdkElectrumError V
  hex : V → BdkElectrumError V
  protocol : V → BdkElectrumError V
  bitcoin : V → BdkElectrumError V
  already_subscribed : V → BdkElectrumError V
  not_subscribed : V → BdkElectrumError V
  invalid_response : V → BdkElectrumError V
  message : V → BdkElectrumError V
  invalid_dns_name_error : String → BdkElectrumError V
  missing_domain : BdkElectrumError V
  all_attempts_errored : V → BdkElectrumError V
  shared_io_error : V → BdkElectrumError V
  couldnt_lock_reader : BdkElectrumError V
  mpsc : BdkElectrumError V
  could_not_create_connection : V → BdkElectrumError V

module _ (P : Primitives) where
  open P use {Payload, to_string}

  -- `impl From<BdkElectrumError> for ElectrumError`
  unfoldable pub from_electrum : BdkElectrumError Payload → ElectrumError
  from_electrum (BdkElectrumError.io_error e) = ElectrumError.io_error (to_string e)
  from_electrum (BdkElectrumError.json e) = ElectrumError.json (to_string e)
  from_electrum (BdkElectrumError.hex e) = ElectrumError.hex (to_string e)
  from_electrum (BdkElectrumError.protocol e) = ElectrumError.protocol (to_string e)
  from_electrum (BdkElectrumError.bitcoin e) = ElectrumError.bitcoin (to_string e)
  from_electrum (BdkElectrumError.already_subscribed _) = ElectrumError.already_subscribed
  from_electrum (BdkElectrumError.not_subscribed _) = ElectrumError.not_subscribed
  from_electrum (BdkElectrumError.invalid_response e) = ElectrumError.invalid_response (to_string e)
  from_electrum (BdkElectrumError.message e) = ElectrumError.message (to_string e)
  from_electrum (BdkElectrumError.invalid_dns_name_error domain) =
      ElectrumError.invalid_dns_name_error domain
  from_electrum BdkElectrumError.missing_domain = ElectrumError.missing_domain
  from_electrum (BdkElectrumError.all_attempts_errored _) = ElectrumError.all_attempts_errored
  from_electrum (BdkElectrumError.shared_io_error e) = ElectrumError.shared_io_error (to_string e)
  from_electrum BdkElectrumError.couldnt_lock_reader = ElectrumError.couldnt_lock_reader
  from_electrum BdkElectrumError.mpsc = ElectrumError.mpsc
  from_electrum (BdkElectrumError.could_not_create_connection error_message) =
      ElectrumError.could_not_create_connection (to_string error_message)

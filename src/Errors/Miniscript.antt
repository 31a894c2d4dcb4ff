-- ===== src/Errors/Miniscript.antt =====
-- `MiniscriptError` of bdk-ffi/src/error.rs, the library's error that it stands for, and the conversion.
use bdk_ffi.Prelude.{ℕ, String}
use bdk_ffi.Extern.{Primitives}

-- `MiniscriptError`
pub data MiniscriptError : Type 0 where
  absolute_lock_time : MiniscriptError
  addr_error : String → MiniscriptError
  addr_p2sh_error : String → MiniscriptError
  analysis_error : String → MiniscriptError
  at_outside_or : MiniscriptError
  bad_descriptor : String → MiniscriptError
  bare_descriptor_addr : MiniscriptError
  cms_too_many_keys : ℕ → MiniscriptError
  context_error : String → MiniscriptError
  could_not_satisfy : MiniscriptError
  expected_char : String → MiniscriptError
  impossible_satisfaction : MiniscriptError
  invalid_opcode : MiniscriptError
  invalid_push : MiniscriptError
  lift_error : String → MiniscriptError
  max_recursive_depth_exceeded : MiniscriptError
  missing_sig : MiniscriptError
  multi_a_too_many_keys : ℕ → MiniscriptError
  multi_colon : MiniscriptError
  multipath_desc_len_mismatch : MiniscriptError
  non_minimal_verify : String → MiniscriptError
  non_standard_bare_script : MiniscriptError
  non_top_level : String → MiniscriptError
  parse_threshold : MiniscriptError
  policy_error : String → MiniscriptError
  pub_key_ctx_error : MiniscriptError
  relative_lock_time : MiniscriptError
  script : String → MiniscriptError
  secp : String → MiniscriptError
  threshold : MiniscriptError
  tr_no_script_code : MiniscriptError
  trailing : String → MiniscriptError
  type_check : String → MiniscriptError
  unexpected : String → MiniscriptError
  unexpected_start : MiniscriptError
  unknown_wrapper : String → MiniscriptError
  unprintable : ℕ → MiniscriptError

-- The library's error, over what its variants carry.
pub data BdkMiniscriptError (V : Type 0) : Type 0 where
  absolute_lock_time : V → BdkMiniscriptError V
  addr_error : V → BdkMiniscriptError V
  addr_p2sh_error : V → BdkMiniscriptError V
  analysis_error : V → BdkMiniscriptError V
  at_outside_or : V → BdkMiniscriptError V
  bad_descriptor : String → BdkMiniscriptError V
  bare_descriptor_addr : BdkMiniscriptError V
  cms_too_many_keys : ℕ → BdkMiniscriptError V
  context_error : V → BdkMiniscriptError V
  could_not_satisfy : BdkMiniscriptError V
  expected_char : V → BdkMiniscriptError V
  impossible_satisfaction : BdkMiniscriptError V
  invalid_opcode : V → BdkMiniscriptError V
  invalid_push : V → BdkMiniscriptError V
  lift_error : V → BdkMiniscriptError V
  max_recursive_depth_exceeded : BdkMiniscriptError V
  missing_sig : V → BdkMiniscriptError V
  multi_a_too_many_keys : ℕ → BdkMiniscriptError V
  multi_colon : V → BdkMiniscriptError V
  multipath_desc_len_mismatch : BdkMiniscriptError V
  non_minimal_verify : String → BdkMiniscriptError V
  non_standard_bare_script : BdkMiniscriptError V
  non_top_level : String → BdkMiniscriptError V
  parse_threshold : V → BdkMiniscriptError V
  policy_error : V → BdkMiniscriptError V
  pub_key_ctx_error : V → V → BdkMiniscriptError V
  relative_lock_time : V → BdkMiniscriptError V
  script : V → BdkMiniscriptError V
  secp : V → BdkMiniscriptError V
  threshold : V → BdkMiniscriptError V
  tr_no_script_code : BdkMiniscriptError V
  trailing : String → BdkMiniscriptError V
  type_check : String → BdkMiniscriptError V
  unexpected : String → BdkMiniscriptError V
  unexpected_start : BdkMiniscriptError V
  unknown_wrapper : V → BdkMiniscriptError V
  unprintable : ℕ → BdkMiniscriptError V

module _ (P : Primitives) where
  open P use {Payload, to_string}

  -- `impl From<bdk_wallet::miniscript::Error> for MiniscriptError`
  unfoldable pub from_miniscript : BdkMiniscriptError Payload → MiniscriptError
  from_miniscript (BdkMiniscriptError.absolute_lock_time _) = MiniscriptError.absolute_lock_time
  from_miniscript (BdkMiniscriptError.addr_error e) = MiniscriptError.addr_error (to_string e)
  from_miniscript (BdkMiniscriptError.addr_p2sh_error e) =
      MiniscriptError.addr_p2sh_error (to_string e)
  from_miniscript (BdkMiniscriptError.analysis_error e) =
      MiniscriptError.analysis_error (to_string e)
  from_miniscript (BdkMiniscriptError.at_outside_or _) = MiniscriptError.at_outside_or
  from_miniscript (BdkMiniscriptError.bad_descriptor s) = MiniscriptError.bad_descriptor s
  from_miniscript BdkMiniscriptError.bare_descriptor_addr = MiniscriptError.bare_descriptor_addr
  from_miniscript (BdkMiniscriptError.cms_too_many_keys n) = MiniscriptError.cms_too_many_keys n
  from_miniscript (BdkMiniscriptError.context_error e) = MiniscriptError.context_error (to_string e)
  from_miniscript BdkMiniscriptError.could_not_satisfy = MiniscriptError.could_not_satisfy
  from_miniscript (BdkMiniscriptError.expected_char c) = MiniscriptError.expected_char (to_string c)
  from_miniscript BdkMiniscriptError.impossible_satisfaction =
      MiniscriptError.impossible_satisfaction
  from_miniscript (BdkMiniscriptError.invalid_opcode _) = MiniscriptError.invalid_opcode
  from_miniscript (BdkMiniscriptError.invalid_push _) = MiniscriptError.invalid_push
  from_miniscript (BdkMiniscriptError.lift_error e) = MiniscriptError.lift_error (to_string e)
  from_miniscript BdkMiniscriptError.max_recursive_depth_exceeded =
      MiniscriptError.max_recursive_depth_exceeded
  from_miniscript (BdkMiniscriptError.missing_sig _) = MiniscriptError.missing_sig
  from_miniscript (BdkMiniscriptError.multi_a_too_many_keys n) =
      MiniscriptError.multi_a_too_many_keys n
  from_miniscript (BdkMiniscriptError.multi_colon _) = MiniscriptError.multi_colon
  from_miniscript BdkMiniscriptError.multipath_desc_len_mismatch =
      MiniscriptError.multipath_desc_len_mismatch
  from_miniscript (BdkMiniscriptError.non_minimal_verify s) = MiniscriptError.non_minimal_verify s
  from_miniscript BdkMiniscriptError.non_standard_bare_script =
      MiniscriptError.non_standard_bare_script
  from_miniscript (BdkMiniscriptError.non_top_level s) = MiniscriptError.non_top_level s
  from_miniscript (BdkMiniscriptError.parse_threshold _) = MiniscriptError.parse_threshold
  from_miniscript (BdkMiniscriptError.policy_error e) = MiniscriptError.policy_error (to_string e)
  from_miniscript (BdkMiniscriptError.pub_key_ctx_error _ _) = MiniscriptError.pub_key_ctx_error
  from_miniscript (BdkMiniscriptError.relative_lock_time _) = MiniscriptError.relative_lock_time
  from_miniscript (BdkMiniscriptError.script e) = MiniscriptError.script (to_string e)
  from_miniscript (BdkMiniscriptError.secp e) = MiniscriptError.secp (to_string e)
  from_miniscript (BdkMiniscriptError.threshold _) = MiniscriptError.threshold
  from_miniscript BdkMiniscriptError.tr_no_script_code = MiniscriptError.tr_no_script_code
  from_miniscript (BdkMiniscriptError.trailing s) = MiniscriptError.trailing s
  from_miniscript (BdkMiniscriptError.type_check s) = MiniscriptError.type_check s
  from_miniscript (BdkMiniscriptError.unexpected s) = MiniscriptError.unexpected s
  from_miniscript BdkMiniscriptError.unexpected_start = MiniscriptError.unexpected_start
  from_miniscript (BdkMiniscriptError.unknown_wrapper c) =
      MiniscriptError.unknown_wrapper (to_string c)
  from_miniscript (BdkMiniscriptError.unprintable b) = MiniscriptError.unprintable b

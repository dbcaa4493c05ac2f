-- ===== src/Status.antt =====
-- include/dartplant/dartplant.h: the status codes of the C API.

pub data Status : Type 0 where
  ok invalid_argument not_initialized host_api_unavailable metadata_invalid : Status
  module_not_found method_not_found ambiguous_method build_id_mismatch : Status
  fingerprint_mismatch address_outside_executable unsupported_address_kind : Status
  unsupported_abi profile_mismatch runtime_not_ready invalid_invocation_phase : Status
  already_hooked hook_failed unhook_failed vm_bridge_unavailable vm_isolate_mismatch : Status
  vm_thread_mismatch vm_scope_required vm_adapter_busy object_handle_invalid : Status
  object_collected shared_code_entry : Status

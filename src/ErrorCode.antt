-- ===== src/ErrorCode.antt =====
-- base/include/utilities/error_code.h and base/sources/utilities/error_code_impl.cpp.
-- `int32_t` results that are error codes are values of `ErrorCode`; `success` is 0.
use libcppx.Base.{ℕ}

-- enum ErrorCode
pub data ErrorCode : Type 0 where
  success trace debug info warn error fatal event : ErrorCode
  not_supported out_of_memory invalid_param throw_exception invalid_call : ErrorCode
  sys_call_failed system_error invalid_state : ErrorCode

-- The enumerator's value, as an `int32_t` result shows it.
unfoldable pub value : ErrorCode → ℕ
value ErrorCode.success = 0
value ErrorCode.trace = 1
value ErrorCode.debug = 2
value ErrorCode.info = 3
value ErrorCode.warn = 4
value ErrorCode.error = 5
value ErrorCode.fatal = 6
value ErrorCode.event = 7
value ErrorCode.not_supported = 100
value ErrorCode.out_of_memory = 101
value ErrorCode.invalid_param = 102
value ErrorCode.throw_exception = 103
value ErrorCode.invalid_call = 104
value ErrorCode.sys_call_failed = 105
value ErrorCode.system_error = 106
value ErrorCode.invalid_state = 107

-- `tls_eErrorCode`, the thread-local variable of the calling thread. An operation that may call
-- `SetLastError` takes it and returns it.
abbrev pub LastError : Type 0
LastError = ErrorCode

unfoldable pub get_last_error : LastError → ErrorCode
get_last_error e = e

unfoldable pub set_last_error : ErrorCode → LastError → LastError
set_last_error new old = new

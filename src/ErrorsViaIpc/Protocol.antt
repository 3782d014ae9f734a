-- ===== src/ErrorsViaIpc/Protocol.antt =====
-- The messages of `NumberSummation` and the exception converter
-- (include/cpp/errors.h, include/cpp/exception_converter.h).
use kos_ce_extra.Prelude.{ℕ, ◌%◌, ◌^◌, Option, none, some, ◌==◌, if◌then◌else◌}

-- The IDL's `UInt32` and the servers' `uint64_t` wrap around.
abbrev pub u32 : ℕ → ℕ
u32 n = n % 2 ^ 32

abbrev pub u64 : ℕ → ℕ
u64 n = n % 2 ^ 64

pub record Request : Type 0 where
  pub repeats : ℕ
  pub num1 : ℕ
  pub num2 : ℕ

-- The `out` argument, or the `error` status.
pub data Reply : Type 0 where
  result : ℕ → Reply
  status : ℕ → Reply

-- What C++ code throws: `ServerBusy`, `std::runtime_error`, any other `std::exception`, or a value
-- of another type.
pub data Exception : Type 0 where
  server_busy runtime_error std_exception unknown : Exception

-- `rcBusy` and `rcFail` of the system's rtl/retcode.h.
module _ (rc_busy rc_fail : ℕ) where
  unfoldable pub catch_exception : Exception → ℕ
  catch_exception server_busy = rc_busy
  catch_exception runtime_error = rc_fail
  catch_exception std_exception = rc_fail
  catch_exception unknown = rc_fail

-- `none`: the method returns, and the caller goes on.
unfoldable pub throw_exception : ℕ → ℕ → Option Exception
throw_exception rc_busy rc = if rc == rc_busy then some server_busy else none

-- ===== src/Rabbitmq/Errors.antt =====
-- Errors and times: `ThrowOnError`, `ThrowOnAmqpError`, `MicroSecNow` and `MicroSleep` of
-- common/utils/utils.cpp. `none` is no exception, `some` the text of the exception thrown.
use kos_ce_extra.Prelude.{
  ℕ, ◌+◌, ◌*◌, ◌%◌, ◌^◌, ◌++◌, Option, none, some, Text, codes, leb, if◌then◌else◌,
}
use kos_ce_extra.Prelude.Decimal.{decimal}
use kos_ce_extra.Rabbitmq.Dump.{hex}

-- A status `int`: not negative, or the negative number -(n + 1).
pub data Status : Type 0 where
  success : ℕ → Status
  failure : ℕ → Status

pub data Method : Type 0 where
  connection_close channel_close : ℕ → Text → Method
  other_method : ℕ → Method

-- `amqp_rpc_reply_t` by its `reply_type`; `unlisted` is a value that the `switch` has no case for.
pub data RpcReply : Type 0 where
  normal no_reply unlisted : RpcReply
  library_exception : Status → RpcReply
  server_exception : Method → RpcReply

-- `error_string` is the library's `amqp_error_string2`.
module _ (error_string : Status → Text) where
  unfoldable pub throw_on_error : Status → Text → Option Text
  throw_on_error (success n) context = none
  throw_on_error (failure n) context = some (context ++ (codes ": " ++ error_string (failure n)))

  unfoldable pub throw_on_amqp_error : RpcReply → Text → Option Text
  unfolding decimal hex
  throw_on_amqp_error normal context = none
  throw_on_amqp_error unlisted context = none
  throw_on_amqp_error no_reply context = some (context ++ codes ": missing RPC reply type!")
  throw_on_amqp_error (library_exception e) context =
      some (context ++ (codes ":" ++ error_string e))
  throw_on_amqp_error (server_exception (connection_close code text)) context = some (
      context
      ++ (codes ": server connection error " ++ (decimal code ++ (codes "h, message: " ++ text))))
  throw_on_amqp_error (server_exception (channel_close code text)) context = some (
      context
      ++ (codes ": server channel error " ++ (decimal code ++ (codes "h, message: " ++ text))))
  throw_on_amqp_error (server_exception (other_method id)) context =
      some (context ++ (codes ": unknown server error, method id 0x" ++ hex 8 id))

-- The clock's seconds and microseconds, as a `uint64_t`.
unfoldable pub micro_sec_now : ℕ → ℕ → ℕ
micro_sec_now tv_sec tv_usec = (tv_sec * 1000000 + tv_usec) % 2 ^ 64

pub record Timespec : Type 0 where
  pub tv_sec : ℕ
  pub tv_nsec : ℕ

-- `none` is an overflow of the `int` product, which C++ leaves undefined.
unfoldable pub micro_sleep : ℕ → Option Timespec
micro_sleep usec =
    if leb (1000 * usec) 2147483647
    then some (record { tv_sec = 0; tv_nsec = 1000 * usec })
    else none

-- ===== src/Rabbitmq/Client.antt =====
-- The publisher and the consumer (amqp_publisher/publisher/src/publisher.cpp and main.cpp,
-- amqp_consumer/consumer/src/consumer.cpp and main.cpp) over the answers of the AMQP library.
pub mod Runs
use kos_ce_extra.Prelude.{
  ℕ, zero, suc, ◌+◌, Bool, true, false, List, [], ◌∷◌, ◌++◌, Option, none, some, Text, codes, ◌==◌,
  if◌then◌else◌,
}
use kos_ce_extra.Prelude.Decimal.{decimal}
use kos_ce_extra.Rabbitmq.Errors.{
  Status, success, failure, RpcReply, normal, throw_on_error, throw_on_amqp_error,
}
use kos_ce_extra.Rabbitmq.Dump.{amqp_dump}

-- What the library answers to the calls of a constructor: whether the two objects are made, the
-- status of `amqp_socket_open`, and the replies to the login and to the opening of the channel.
pub record Broker : Type 0 where
  pub connection_made : Bool
  pub socket_made : Bool
  pub open_status : Status
  pub login : RpcReply
  pub channel : RpcReply

abbrev pub is_zero : Status → Bool
is_zero (success n) = n == 0
is_zero (failure n) = false

abbrev pub or_else : Option Text → Option Text → Option Text
or_else none next = next
or_else (some e) next = some e

module _ (error_string : Status → Text) where
  -- Both constructors: the exception thrown, if there is one.
  unfoldable pub connect : Broker → Text → ℕ → Option Text
  unfolding throw_on_amqp_error decimal
  connect b hostname port =
      if b.connection_made
      then (if b.socket_made
          then (if is_zero b.open_status
              then or_else (throw_on_amqp_error error_string b.login (codes "Logging in"))
                  (throw_on_amqp_error error_string b.channel (codes "Opening channel"))
              else some (
                  codes "Error opening broker connection socket with address: "
                  ++ (hostname ++ (codes " port: " ++ decimal port))))
          else some (codes "Error creating TCP socket"))
      else some (codes "Allocation error for connection object")

  abbrev pub message_body : ℕ → Text
  message_body i = codes "{\"sequence\"=" ++ (decimal (i + 1) ++ codes "}")

  -- The loop of `SendData` from `i`, `rounds` before its end: the messages that are handed to
  -- `amqp_basic_publish`, whose status for message `i` is `publish i`, and the exception.
  unfoldable pub send_from : (ℕ → Status) → ℕ → ℕ → List Text × Option Text
  unfolding throw_on_error
  send_from publish zero i = ([], none)
  send_from publish (suc rounds) i =
      let (more, e) = send_from publish rounds (i + 1) in
      elim (throw_on_error error_string (publish i) (codes "Publishing")) [
        | none ↦ (message_body i ∷ more, e)
        | some thrown ↦ (message_body i ∷ [], some thrown)
      ]

  unfoldable pub send_data : (ℕ → Status) → List Text × Option Text
  unfolding send_from
  send_data publish = send_from publish 100 0

  -- `DeclareQueue`: the replies to the declaration, the binding and the consumption, and whether
  -- the queue's name could be copied.
  unfoldable pub declare_queue : RpcReply → Bool → RpcReply → RpcReply → Option Text
  unfolding throw_on_amqp_error
  declare_queue declared copied bound consumed =
      or_else (throw_on_amqp_error error_string declared (codes "Declaring queue")) (
        if copied
        then or_else (throw_on_amqp_error error_string bound (codes "Binding queue"))
            (throw_on_amqp_error error_string consumed (codes "Consuming"))
        else some (codes "Out of memory while copying queue name"))

pub record Envelope : Type 0 where
  pub delivery_tag : ℕ
  pub exchange : Text
  pub routing_key : Text
  pub content_type : Option Text
  pub body : Text

-- What `amqp_consume_message` gives: a message, or a reply that is not normal.
pub data Consumed : Type 0 where
  delivered : Envelope → Consumed
  abnormal : RpcReply → Consumed

abbrev line : Text → Text
line s = s ++ 10 ∷ []

unfoldable pub print_envelope : Envelope → Text
print_envelope e =
    line (
      codes "Delivery "
      ++ (decimal e.delivery_tag
          ++ (codes ", exchange: " ++ (e.exchange ++ (codes ", routingkey: " ++ e.routing_key)))))
    ++ ((elim e.content_type [ none ↦ [] | some t ↦ line (codes "Content-type: " ++ t) ])
        ++ (line (codes "----") ++ amqp_dump e.body))

-- `RecvAndPrintData` over what is consumed: the texts printed, and whether it has returned.
unfoldable pub recv_and_print_data : List Consumed → List Text × Bool
recv_and_print_data [] = ([], false)
recv_and_print_data (abnormal r ∷ rest) = ([], true)
recv_and_print_data (delivered e ∷ rest) =
    let (texts, returned) = recv_and_print_data rest in (print_envelope e ∷ texts, returned)

-- What `std::stoi` makes of the port.
pub data Stoi : Type 0 where
  number : ℕ → Stoi
  invalid_argument out_of_range : Stoi

-- How `main` ends: with an exit code, by an exception that nothing catches, or undefined, when
-- the variable for the port is not set and `std::stoi` is given a null pointer.
pub data Ending : Type 0 where
  exit_success exit_failure terminated undefined : Ending

abbrev pub default_port : ℕ
default_port = 5672

-- `main` of both programs: the network, the two variables, and the work on a host and a port,
-- which throws or not.
unfoldable pub main :
    (Text → Stoi) → Bool → Option Text → Option Text → (Text → ℕ → Option Text) → Ending
main stoi iface none port work = exit_failure
main stoi iface (some host) port work =
    if iface
    then elim port [
      | none ↦ undefined
      | some p ↦ elim (stoi p) [
        | number n ↦ elim (work host n) [ none ↦ exit_success | some e ↦ exit_failure ]
        | invalid_argument ↦ elim (work host default_port) [
          | none ↦ exit_success
          | some e ↦ exit_failure
        ]
        | out_of_range ↦ terminated
      ]
    ]
    else exit_failure

-- ===== src/Rabbitmq/Client/Runs.antt =====
-- What the publisher sends and the consumer prints, and how errors are reported.
use kos_ce_extra.Prelude.{
  ℕ, zero, suc, ◌+◌, ◌*◌, ◌<◌, ◌≤◌, ◌≡◌, refl, ◌↔◌, ◌⊎◌, List, [], ◌∷◌, ◌++◌, none, some, Text,
  codes, arith, sym,
}
use mathlib.Core.Option.{some-injective}
use kos_ce_extra.Rabbitmq.Errors.{
  Status, success, failure, RpcReply, normal, no_reply, unlisted, library_exception,
  server_exception, connection_close, channel_close, other_method, throw_on_error,
  throw_on_amqp_error, Timespec, micro_sleep,
}
use kos_ce_extra.Rabbitmq.Client.{message_body, send_from, send_data}

abbrev pub bodies : (Status → Text) → ℕ → ℕ → List Text
bodies error_string i zero = []
bodies error_string i (suc n) = message_body error_string i ∷ bodies error_string (i + 1) n

module _ (error_string : Status → Text) where
  throws_unless_normal :
      (reply : RpcReply) (context : Text)
      → (throw_on_amqp_error error_string reply context ≡ none)
        ↔ ((reply ≡ normal) ⊎ (reply ≡ unlisted))
  unfolding throw_on_amqp_error
  throws_unless_normal normal context = ground arith
  throws_unless_normal unlisted context = ground arith
  throws_unless_normal no_reply context = ground arith
  throws_unless_normal (library_exception e) context = ground arith
  throws_unless_normal (server_exception (connection_close code text)) context = ground arith
  throws_unless_normal (server_exception (channel_close code text)) context = ground arith
  throws_unless_normal (server_exception (other_method id)) context = ground arith

  throws_with_context :
      (reply : RpcReply) (context what : Text)
      → throw_on_amqp_error error_string reply context ≡ some what
      → (rest : Text) × (what ≡ context ++ rest)
  unfolding throw_on_amqp_error
  throws_with_context normal context what h = cc
  throws_with_context unlisted context what h = cc
  throws_with_context no_reply context what h =
      (codes ": missing RPC reply type!", sym (some-injective _ _ h))
  throws_with_context (library_exception e) context what h =
      (codes ":" ++ error_string e, sym (some-injective _ _ h))
  throws_with_context (server_exception (connection_close code text)) context what h =
      (_, sym (some-injective _ _ h))
  throws_with_context (server_exception (channel_close code text)) context what h =
      (_, sym (some-injective _ _ h))
  throws_with_context (server_exception (other_method id)) context what h =
      (_, sym (some-injective _ _ h))

  -- `ThrowOnAmqpError` throws nothing exactly for a normal reply and for a reply type that its
  -- `switch` does not list, and the text of every exception begins with the context.
  throw_on_amqp_error_lem :
      (reply : RpcReply) (context : Text)
      → ((throw_on_amqp_error error_string reply context ≡ none)
          ↔ ((reply ≡ normal) ⊎ (reply ≡ unlisted)))
        × ((what : Text)
            → throw_on_amqp_error error_string reply context ≡ some what
            → (rest : Text) × (what ≡ context ++ rest))
  throw_on_amqp_error_lem reply context =
      (throws_unless_normal reply context, throws_with_context reply context)

  module _ (publish : ℕ → Status) where
    sent_all :
        (rounds i : ℕ)
        → ((j : ℕ) → i ≤ j → j < i + rounds → (n : ℕ) × (publish j ≡ success n))
        → send_from error_string publish rounds i ≡ (bodies error_string i rounds, none)
    unfolding send_from
    sent_all zero i good = refl
    sent_all (suc rounds) i good =
        let (n, now) = good i (omega arith) (omega arith) in
        let later = sent_all rounds (i + 1) (λ j a b. good j (omega arith) (omega arith)) in
        ground arith

    sent_until :
        (k rounds i n : ℕ)
        → k < rounds
        → ((j : ℕ) → i ≤ j → j < i + k → (n : ℕ) × (publish j ≡ success n))
        → publish (i + k) ≡ failure n
        → send_from error_string publish rounds i ≡ (
          bodies error_string i (suc k),
          throw_on_error error_string (failure n) (codes "Publishing"),
        )
    unfolding send_from
    sent_until k zero i n h good bad = elim h [ ]
    sent_until zero (suc rounds) i n h good bad =
        let here : i + 0 ≡ i = omega arith in let bad' = rw here at bad in ground arith
    sent_until (suc k) (suc rounds) i n h good bad =
        let (m, now) = good i (omega arith) (omega arith) in
        let there : i + suc k ≡ i + 1 + k = omega arith in
        let later =
          sent_until k rounds (i + 1) n (omega arith) (λ j a b. good j (omega arith) (omega arith))
            (rw there at bad) in
        ground arith

    -- `SendData` hands over the hundred messages with the numbers 1 to 100, in order, where the
    -- library accepts each of them.
    send_data_all :
        ((j : ℕ) → j < 100 → (n : ℕ) × (publish j ≡ success n))
        → send_data error_string publish ≡ (bodies error_string 0 100, none)
    unfolding send_data
    send_data_all good = sent_all 100 0 (λ j a b. good j (omega arith))

    -- Where the library refuses the message `k` first, `SendData` hands over the messages up to
    -- that one and no other, and throws with the context `Publishing`.
    send_data_until :
        (k n : ℕ)
        → k < 100
        → ((j : ℕ) → j < k → (n : ℕ) × (publish j ≡ success n))
        → publish k ≡ failure n
        → send_data error_string publish ≡ (
          bodies error_string 0 (suc k),
          some (codes "Publishing" ++ (codes ": " ++ error_string (failure n))),
        )
    unfolding send_data throw_on_error
    send_data_until k n h good bad =
        let here : k ≡ 0 + k = omega arith in
        sent_until k 100 0 n h (λ j a b. good j (omega arith)) (rw here at bad)

-- `MicroSleep` passes `nanosleep` a time that it accepts, with less than 1,000,000,000
-- nanoseconds, exactly for less than a second.
micro_sleep_iff :
    (usec : ℕ)
    → ((t : Timespec) × (micro_sleep usec ≡ some t) × (t.tv_nsec < 1000000000)) ↔ (usec < 1000000)
unfolding micro_sleep
micro_sleep_iff usec = (
  λ (t, made, fits). ground arith,
  λ h. (record { tv_sec = 0; tv_nsec = 1000 * usec }, ground arith, ground arith),
)

-- ===== src/Jwt/Session.antt =====
-- Connections as asynchronous state machines: `Session` and `Listener` of
-- web_server/src/webserver.cpp, lines 24-177. An operation that a method starts is outstanding
-- until the event loop calls its handler; the outstanding operations complete in any order.
pub mod Chain
pub mod Accepting
use kos_ce_extra.Prelude.{
  ℕ, ◌+◌, ◌-◌, Bool, true, false, not, List, [], ◌∷◌, ◌++◌, ◌≡◌, if◌then◌else◌,
}

-- `async_handshake`, `async_read`, `async_write` with the `keepAlive` that its handler is bound
-- to, and `async_shutdown`.
pub data Operation : Type 0 where
  handshake read shutdown : Operation
  write : Bool → Operation

pub data ErrorCode : Type 0 where
  success end_of_stream failure : ErrorCode

-- `served` counts the calls of `HandleRequest`, `sent` the responses that are written.
pub record Session : Type 0 where
  pub outstanding : List Operation
  pub served : ℕ
  pub sent : ℕ

abbrev begin : Operation → Session → Session
begin op s = record s { outstanding = op ∷ s.outstanding }

-- `Run` and `OnRun`: `dispatch` only puts off the handshake.
unfoldable pub on_run : Session
on_run = record { outstanding = handshake ∷ []; served = 0; sent = 0 }

unfoldable pub start_read : Session → Session
start_read s = begin read s

unfoldable pub close : Session → Session
close s = begin shutdown s

unfoldable pub send_response : Bool → Session → Session
send_response keep_alive s = begin (write keep_alive) s

unfoldable pub on_handshake : ErrorCode → Session → Session
unfolding start_read
on_handshake success s = start_read s
on_handshake _ s = s

-- `keep_alive` is that of the response which `HandleRequest` makes.
unfoldable pub on_read : ErrorCode → Bool → Session → Session
unfolding close send_response
on_read success keep_alive s = send_response keep_alive (record s { served = s.served + 1 })
on_read end_of_stream keep_alive s = close s
on_read failure keep_alive s = s

unfoldable pub on_write : Bool → ErrorCode → Session → Session
unfolding close start_read
on_write keep_alive success s =
    let s' = record s { sent = s.sent + 1 } in start_read (if not keep_alive then close s' else s')
on_write keep_alive _ s = s

-- It logs a failure, and does nothing else.
unfoldable pub on_shutdown : ErrorCode → Session → Session
on_shutdown _ s = s

unfoldable pub complete : Operation → ErrorCode → Bool → Session → Session
unfolding on_handshake on_read on_write on_shutdown
complete handshake ec keep_alive s = on_handshake ec s
complete read ec keep_alive s = on_read ec keep_alive s
complete (write keep) ec keep_alive s = on_write keep ec s
complete shutdown ec keep_alive s = on_shutdown ec s

-- One outstanding operation completes: it is taken off, and its handler runs. Any outcome may come at
-- any time: these are all the runs of the program and more, since a stream that is being shut down
-- refuses later writes.
pub data Step (s : Session) : Session → Type 0 where
  completes :
      (op : Operation) (before after : List Operation) (ec : ErrorCode) (keep_alive : Bool)
      → s.outstanding ≡ before ++ op ∷ after
      → Step s (complete op ec keep_alive (record s { outstanding = before ++ after }))

pub data Reach : Session → Type 0 where
  here : Reach on_run
  next : {s t : Session} → Reach s → Step s t → Reach t

-- `Listener`: the accepts that are outstanding, and the sessions.
pub record Listener : Type 0 where
  pub accepting : ℕ
  pub sessions : List Session

unfoldable pub accept : Listener → Listener
accept l = record l { accepting = l.accepting + 1 }

unfoldable pub on_accept : ErrorCode → Listener → Listener
unfolding accept on_run
on_accept success l = accept (record l { sessions = on_run ∷ l.sessions })
on_accept _ l = accept l

-- The listener over the completions of its accepts.
unfoldable pub listen : List ErrorCode → Listener → Listener
unfolding on_accept
listen [] l = l
listen (ec ∷ ecs) l = listen ecs (on_accept ec (record l { accepting = l.accepting - 1 }))

-- `Run` of a new listener.
unfoldable pub listening : Listener
unfolding accept
listening = accept (record { accepting = 0; sessions = [] })

-- ===== src/CAres/Callable.antt =====
-- `Callable` of common/callable.h: a queue of handlers that one thread serves.
pub mod Serving
use kos_ce_extra.Prelude.{
  ℕ, ◌+◌, Bool, true, false, not, List, [], ◌∷◌, ◌++◌, ◌≡◌, ◌==◌, if◌then◌else◌, Text, codes,
}
use kos_ce_extra.Prelude.Decimal.{decimal}

-- A handler makes one step of the event loop, or is empty, which ends the thread.
pub data Handler : Type 0 where
  step stop : Handler

-- `gets` and `served` count the calls of `Get` and of `loop.Step()`; `joining` is set once the
-- destructor runs, `finished` once `ServeCalls` has returned.
pub record Callable : Type 0 where
  pub handlers : List Handler
  pub gets : ℕ
  pub served : ℕ
  pub joining : Bool
  pub finished : Bool

abbrev pub fresh : Callable
fresh = record { handlers = []; gets = 0; served = 0; joining = false; finished = false }

unfoldable pub add_handler : Handler → Callable → Callable
add_handler h c = record c { handlers = c.handlers ++ h ∷ [] }

-- `Get` hands out the handle, and queues a step for the call that it will bring.
unfoldable pub get_handle : Callable → Callable
unfolding add_handler
get_handle c = add_handler step (record c { gets = c.gets + 1 })

-- The destructor up to `join`.
unfoldable pub destroy : Callable → Callable
unfolding add_handler
destroy c = add_handler stop (record c { joining = true })

-- One round of `ServeCalls` with the handler that `GetHandler` takes from the front.
unfoldable pub serve_call : Handler → List Handler → Callable → Callable
serve_call step rest c = record c { handlers = rest; served = c.served + 1 }
serve_call stop rest c = record c { handlers = rest; finished = true }

-- What the owner and the thread do, in any order. The owner makes no call once it destroys the
-- object; the thread waits while the queue is empty.
pub data Step (c : Callable) : Callable → Type 0 where
  gets : c.joining ≡ false → Step c (get_handle c)
  destroys : c.joining ≡ false → Step c (destroy c)
  serves :
      (h : Handler) (rest : List Handler)
      → c.finished ≡ false
      → c.handlers ≡ h ∷ rest
      → Step c (serve_call h rest c)

pub data Reach : Callable → Type 0 where
  here : Reach fresh
  next : {c d : Callable} → Reach c → Step c d → Reach d

-- The handles of the constructor: those it closes, and how it ends.
pub record Connection : Type 0 where
  pub listener : ℕ
  pub server : ℕ
  pub client : ℕ

pub data Made : Type 0 where
  threw : Text → Made
  made : Callable → Made

-- `rc_ok` is `rcOk` and `rc` the code of `KnHandleCreateUserObjectEx`.
unfoldable pub make_callable : ℕ → Connection → ℕ → List ℕ × Made
unfolding decimal
make_callable rc_ok k rc =
    let closed = k.client ∷ (if k.server == k.listener then [] else k.server ∷ []) in
    (
      closed,
      if rc == rc_ok
          then made fresh
          else threw (codes "KnHandleCreateUserObjectEx failed with code: " ++ decimal rc),
    )

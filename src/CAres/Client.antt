-- ===== src/CAres/Client.antt =====
-- `main` of the client (client/src/main.cpp) with its callback object, whose thread serves the
-- answers while `main` goes on. `loop.Step()` waits for a call, so the thread, and the destructor
-- that joins it, can wait for ever.
pub mod Joining
pub mod Answers
use kos_ce_extra.Prelude.{
  ℕ, zero, suc, ◌+◌, Bool, true, false, Option, none, some, List, [], ◌∷◌, ◌++◌, length, Text,
  codes, if◌then◌else◌,
}
use kos_ce_extra.CAres.Callable.{
  Callable, Handler, step, stop, fresh, get_handle, destroy, serve_call,
}

-- The constructor of `Callable`, the proxy of the resolver, and `Resolve`; `some what` is an
-- exception.
pub record Resolving (S : Type 0) : Type 0 where
  pub make_callback : S → Option Text × S
  pub make_proxy : S → Option Text × S
  pub resolve : Text → S → Option Text × S

-- The callback object, and the number of calls of `OnResolve` that are sent to it and not served.
pub record Answering : Type 0 where
  pub object : Callable
  pub due : ℕ

-- One round of the thread, if it runs and has a handler. A handler that makes a step of the event
-- loop waits where no call is sent.
unfoldable pub serve_next : Bool → List Handler → Answering → Answering
unfolding serve_call
serve_next true handlers a = a
serve_next false [] a = a
serve_next false (stop ∷ rest) a = record a { object = serve_call stop rest a.object }
serve_next false (step ∷ rest) a = elim a.due [
  | zero ↦ a
  | suc due ↦ record { object = serve_call step rest a.object; due = due }
]

unfoldable pub serve_front : Answering → Answering
unfolding serve_next
serve_front a = serve_next a.object.finished a.object.handlers a

unfoldable pub serve_rounds : ℕ → Answering → Answering
unfolding serve_front
serve_rounds zero a = a
serve_rounds (suc n) a = serve_rounds n (serve_front a)

-- The destructor, which joins the thread: the thread takes what is queued as far as calls are sent.
-- The destructor returns if the thread has ended.
unfoldable pub join_thread : Answering → Callable
unfolding destroy serve_rounds
join_thread a =
    let c = destroy a.object in (serve_rounds (length c.handlers) (record a { object = c })).object

-- What `main` leaves: whether it ends with `EXIT_SUCCESS`, where it ends at all, its log, the
-- callback object if there was one, and the number of calls of `Resolve`.
pub record ClientRun (S : Type 0) : Type 0 where
  pub exit : Option Bool
  pub log : List Text
  pub callback : Option Callable
  pub asked : ℕ
  pub peer : S

-- Whether the callback object, if there is one, is destroyed.
abbrev pub is_destroyed : Option Callable → Bool
is_destroyed none = true
is_destroyed (some c) = c.finished

-- `comes i` tells whether the call for the `i`-th handle comes once `Resolve` has returned.
module _ {S : Type 0} (d : Resolving S) (comes : ℕ → Bool) (rounds : ℕ → ℕ) where
  -- The loop over the names: behind the `i`-th `Resolve`, the thread makes `rounds i` rounds.
  unfoldable pub resolve_names : ℕ → List Text → Answering → S → (Option Text × ℕ) × Answering × S
  resolve_names i [] a s = ((none, i), a, s)
  resolve_names i (name ∷ names) a s =
      let c = get_handle a.object in
      let (threw, s') = d.resolve name s in
      let sent : Answering = record { object = c; due = a.due + (if comes i then 1 else 0) } in
      let rest = resolve_names (i + 1) names (serve_rounds (rounds i) sent) s' in
      elim threw [ none ↦ rest | some what ↦ ((some what, i + 1), record a { object = c }, s') ]

  -- The end of `main` behind the `try` block.
  unfoldable pub client_end : Option Text → Option Callable → ℕ → S → ClientRun S
  client_end threw callback asked s =
      if is_destroyed callback
      then (elim threw [
        | none ↦ record {
          exit = some true;
          log = codes "Started" ∷ codes "Finished" ∷ [];
          callback = callback;
          asked = asked;
          peer = s;
        }
        | some what ↦ record {
          exit = some false;
          log = codes "Started" ∷ (codes "Error occurred while name resolving: " ++ what) ∷ [];
          callback = callback;
          asked = asked;
          peer = s;
        }
      ])
      else record {
        exit = none;
        log = codes "Started" ∷ [];
        callback = callback;
        asked = asked;
        peer = s;
      }

  -- The `try` block behind the callback object, which is destroyed in each case.
  unfoldable pub with_callback : List Text → S → ClientRun S
  with_callback names s =
      let start : Answering = record { object = fresh; due = 0 } in
      let (refused, s') = d.make_proxy s in
      let (end, a, s'') = resolve_names 0 names start s' in
      elim refused [
        | some what ↦ client_end (some what) (some (join_thread start)) 0 s'
        | none ↦ client_end end.0 (some (join_thread a)) end.1 s''
      ]

  unfoldable pub resolving_main : List Text → S → ClientRun S
  resolving_main [] s = record {
    exit = some true;
    log = codes "Started" ∷ codes "No host names passed - nothing to do" ∷ [];
    callback = none;
    asked = 0;
    peer = s;
  }
  resolving_main (name ∷ names) s =
      let (threw, s') = d.make_callback s in
      elim threw [
        | some what ↦ client_end (some what) none 0 s'
        | none ↦ with_callback (name ∷ names) s'
      ]

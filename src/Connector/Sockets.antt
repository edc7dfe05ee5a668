-- ===== src/Connector/Sockets.antt =====
-- MyNet/net/Connector.cc: every socket is handed on, and a start makes one at most.
use my_net.Common.{
  ℕ, ◌+◌, ◌≤◌, ◌≡◌, refl, ap, ap₂, ◌∙◌, subst, inl, inr, Bool-cases, Option, none, some, List, [],
  ◌∷◌, ◌++◌, length, arith,
}
use my_net.Common.Outcome.{done, done_inj, fault, assertion}
use my_net.Connector.{
  Connector, Errno, einprogress, eintr, eisconn, eagain, eaddrinuse, eaddrnotavail, econnrefused,
  enetunreach, eacces, eperm, eafnosupport, ealready, ebadf, efault, enotsock, unexpected, Call,
  connecting, retry, close, Task, start_task, stop_task, Methods, start, stop, answer,
  is_disconnected, is_connected, connect, start_in_loop, stop_in_loop, Led, nothing_led, Run, Trace,
  new, starts_again, stops, runs_start, runs_stop, changes,
}

abbrev pub socket_of : Call → Option ℕ
socket_of (connecting fd) = fd
socket_of (retry fd) = fd
socket_of (close fd) = fd

abbrev pub sockets_of : List Call → List (Option ℕ)
sockets_of [] = []
sockets_of (c ∷ cs) = socket_of c ∷ sockets_of cs

-- The starts that the loop has not run yet.
abbrev pub start_tasks : List Task → ℕ
start_tasks [] = 0
start_tasks (start_task ∷ ts) = start_tasks ts + 1
start_tasks (stop_task ∷ ts) = start_tasks ts

start_tasks-append : (xs ys : List Task) → start_tasks (xs ++ ys) ≡ start_tasks xs + start_tasks ys
start_tasks-append [] ys = omega arith
start_tasks-append (start_task ∷ xs) ys = omega (arith, start_tasks-append xs ys)
start_tasks-append (stop_task ∷ xs) ys = start_tasks-append xs ys

sockets_of-append : (xs ys : List Call) → sockets_of (xs ++ ys) ≡ sockets_of xs ++ sockets_of ys
sockets_of-append [] ys = refl
sockets_of-append (x ∷ xs) ys =
    ap (λ (t : List (Option ℕ)). socket_of x ∷ t) (sockets_of-append xs ys)

socket_of-answer : (fd : Option ℕ) (errno : Option Errno) → socket_of (answer fd errno) ≡ fd
unfolding answer
socket_of-answer fd none = refl
socket_of-answer fd (some e) = elim e as (λ k. socket_of (answer fd (some k)) ≡ fd) [
  | einprogress ↦ refl
  | eintr ↦ refl
  | eisconn ↦ refl
  | eagain ↦ refl
  | eaddrinuse ↦ refl
  | eaddrnotavail ↦ refl
  | econnrefused ↦ refl
  | enetunreach ↦ refl
  | eacces ↦ refl
  | eperm ↦ refl
  | eafnosupport ↦ refl
  | ealready ↦ refl
  | ebadf ↦ refl
  | efault ↦ refl
  | enotsock ↦ refl
  | unexpected n ↦ refl
]

module _ (methods : Methods) where
  -- What a step came by is what its calls are for, and one socket at most.
  abbrev HandsOn : Led → Type 0
  HandsOn led = (sockets_of led.calls ≡ led.got) × (length led.got ≤ 1)

  connect-HandsOn :
      (fd : Option ℕ) (errno : Option Errno) (c : Connector) → HandsOn (connect methods fd errno c)
  unfolding connect
  connect-HandsOn fd errno c = (ap (λ n. n ∷ []) (socket_of-answer fd errno), omega arith)

  start_in_loop-HandsOn :
      (fd : Option ℕ) (errno : Option Errno) (c : Connector) (led : Led)
      → start_in_loop methods fd errno c ≡ done led
      → HandsOn led
  unfolding start_in_loop
  start_in_loop-HandsOn fd errno c led q = elim (Bool-cases (is_disconnected c.state)) [
    | inr e ↦
        let failed : start_in_loop methods fd errno c ≡ fault assertion = rw e refl in absurd cc
    | inl e ↦ elim (Bool-cases c.connect_wanted) [
      | inl w ↦
          let ends : start_in_loop methods fd errno c ≡ done (connect methods fd errno c) =
            rw (e, w) refl in
          subst HandsOn (done_inj ends q) (connect-HandsOn fd errno c)
      | inr w ↦
          let ends : start_in_loop methods fd errno c ≡ done (nothing_led c) = rw (e, w) refl in
          subst HandsOn (done_inj ends q) (refl, omega arith)
    ]
  ]

  stop_in_loop-sockets :
      (c : Connector) → sockets_of (stop_in_loop methods c).calls ≡ (stop_in_loop methods c).got
  unfolding stop_in_loop
  stop_in_loop-sockets c = elim (Bool-cases (is_connected c.state)) [
    | inl e ↦ rw e refl
    | inr e ↦ rw e refl
  ]

  handed_on :
      (r : Run methods) (led : Led)
      → sockets_of r.calls ≡ r.sockets
      → sockets_of led.calls ≡ led.got
      → sockets_of (r.calls ++ led.calls) ≡ r.sockets ++ led.got
  handed_on r led e q =
      sockets_of-append r.calls led.calls ∙ ap₂ (λ (s t : List (Option ℕ)). s ++ t) e q

  -- The starts that are left after a step, with what the loop is given.
  starts_left :
      (before after given all : List Task)
      → (start_tasks ((before ++ after) ++ given)
          ≡ start_tasks before + start_tasks after + start_tasks given)
        × (start_tasks (all ++ given) ≡ start_tasks all + start_tasks given)
  starts_left before after given all = (
    omega (arith, start_tasks-append (before ++ after) given, start_tasks-append before after),
    start_tasks-append all given,
  )

  -- In every run of a connector, whatever its undefined methods do to it and give the loop to
  -- run, every descriptor that it was given for a socket, -1 included, or that its channel
  -- gave back has been passed to `connecting`, `retry` or `close` once, in order; and the
  -- sockets that it asked for and the starts that the loop has still to run are together no
  -- more than the calls of `start` and the starts that those methods gave the loop.
  pub Trace-sockets :
      {r : Run methods}
      → Trace methods r
      → (sockets_of r.calls ≡ r.sockets)
        × (r.made + start_tasks r.tasks ≤ r.starts + start_tasks r.given)
  unfolding start stop
  Trace-sockets new = (refl, omega arith)
  Trace-sockets (starts_again {r} t) =
      let (e, l) = Trace-sockets t in
      (e, omega (arith, start_tasks-append r.tasks (start_task ∷ [])))
  Trace-sockets (stops {r} t) =
      let (e, l) = Trace-sockets t in
      (e, omega (arith, start_tasks-append r.tasks (stop_task ∷ [])))
  Trace-sockets (runs_start {r} before after fd errno led t h q) =
      let (e, l) = Trace-sockets t in
      let (e', l') = start_in_loop-HandsOn fd errno r.connector led q in
      let (n, n') = starts_left before after led.given r.given in
      (
        handed_on r led e e',
        omega (arith, ap start_tasks h, start_tasks-append before (start_task ∷ after)),
      )
  Trace-sockets (runs_stop {r} before after t h) =
      let (e, l) = Trace-sockets t in
      let led = stop_in_loop methods r.connector in
      let (n, n') = starts_left before after led.given r.given in
      (
        handed_on r led e (stop_in_loop-sockets r.connector),
        omega (arith, ap start_tasks h, start_tasks-append before (stop_task ∷ after)),
      )
  Trace-sockets (changes {r} c given t) =
      let (e, l) = Trace-sockets t in
      (e, omega (arith, start_tasks-append r.tasks given, start_tasks-append r.given given))

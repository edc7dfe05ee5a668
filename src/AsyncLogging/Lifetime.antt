-- ===== src/AsyncLogging/Lifetime.antt =====
-- MyNet/base/AsyncLogging.cc and .h: an asynchronous log from its `start` to its destructor, with the
-- log file that the writing thread keeps. The thread that owns the object and the writing thread are
-- each at one place of their code; any threads log meanwhile.
pub mod Rounds
pub mod Places
pub mod Files
pub mod Ending
use my_net.Common.{
  ℕ, suc, ◌≡◌, ltb, if◌then◌else◌, Bool, true, false, Option, none, some, List, [], ◌∷◌, ◌++◌,
  length, take,
}
use my_net.Common.Int.{pos}
use my_net.Common.Outcome.{
  Fault, assertion, Outcome, done, fault, Attempt, returns, stops, waits, unfinished, and_then,
}
use my_net.CountDownLatch.{Latch, make, wait_zero, wait_again, count_down}
use my_net.FileUtil.{Fwrite, write_line}
use my_net.LogFile.{System, LogFile, new_log_file, flush, at_flush, append as append_text}
use my_net.LogStream.{FixedBuffer, as_string}
use my_net.AsyncLogging.{Front, Back, init, init_back, append, exchange, write_out, kept}

-- `m_rollSize`, `m_flushInterval`, `m_basename`, the size of a buffer, and what the system does: the
-- files, `fwrite` with the fuel of its loop, the writing thread's number and the message about
-- dropped buffers. The last four are the fields of the log file that have no initialiser.
pub record Setting : Type 0 where
  pub roll_size : ℕ
  pub flush_interval : ℕ
  pub basename : List ℕ
  pub size : ℕ
  pub sys : System
  pub fwrite : Fwrite
  pub fuel : ℕ
  pub tid : ℕ
  pub message : List ℕ
  pub start_period : ℕ
  pub last_flush : ℕ
  pub last_roll : ℕ
  pub append_count : ℕ

-- The two times that the appends of a round ask for.
abbrev pub Clock : Type 0
Clock = ℕ → ℕ × ℕ

-- The thread that owns the object: before `start`, in the latch's `wait`, after it, in `join`, after it.
pub data Owner : Type 0 where
  new_object at_latch blocked in_use joining finished : Owner

-- The writing thread in `ThreadFunc`: before its first statement, at the loop's test, before the stretch
-- under the mutex, after it, and at its end. It may be stopped by a fault, kept from the log's lock, or
-- without fuel; the log is then as it has left it.
pub data Writer : Type 0 where
  no_thread entering : Writer
  testing exchanging writing returned : LogFile → Writer
  stuck : Fault → Option LogFile → Writer
  held_up no_fuel : LogFile → Writer

pub record Async : Type 0 where
  pub front : Front
  pub back : Back
  pub running : Bool
  pub latch : Latch
  pub owner : Owner
  pub writer : Writer

unfoldable pub new_async : ℕ → Async
unfolding init
new_async size = record {
  front = init size;
  back = init_back size;
  running = false;
  latch = make (pos 1);
  owner = new_object;
  writer = no_thread;
}

-- The first two statements of `start`; the third one is the latch's `wait`.
unfoldable pub start : Async → Async
start s = record s { running = true; owner = at_latch; writer = entering }

abbrev pub after_latch : Bool × Latch → Async → Async
after_latch (true, l) s = record s { latch = l; owner = in_use }
after_latch (false, l) s = record s { latch = l; owner = blocked }

unfoldable pub wait_latch : Async → Async
wait_latch s = after_latch (wait_zero s.latch) s

unfoldable pub wait_latch_again : Async → Async
wait_latch_again s = after_latch (wait_again s.latch) s

-- `stop` up to its `join`, and the destructor, which is all that calls it.
unfoldable pub stop : Async → Async
stop s = record s { running = false; owner = joining }

unfoldable pub destroy : Async → Async
unfolding stop
destroy s = if s.running then stop s else s

abbrev pub after_join : Writer → Async → Async
after_join (returned f) s = record s { owner = finished }
after_join w s = s

unfoldable pub join : Async → Async
join s = after_join s.writer s

abbrev pub new_log : Setting → ℕ → LogFile
new_log e now =
    new_log_file e.sys now e.start_period e.last_flush e.last_roll e.append_count true e.roll_size
      e.basename e.flush_interval 1024

-- The texts that a round appends: the message and two buffers if there are too many, or all of them.
abbrev pub buffer_texts : List FixedBuffer → List (List ℕ)
buffer_texts [] = []
buffer_texts (b ∷ bs) = as_string b ∷ buffer_texts bs

unfoldable pub to_append : List ℕ → List FixedBuffer → List (List ℕ)
to_append message bs =
    if ltb 25 (length bs) then message ∷ buffer_texts (take 2 bs) else buffer_texts bs

unfoldable pub append_all : Setting → Clock → ℕ → List (List ℕ) → LogFile → Attempt LogFile
append_all e clock i [] f = returns f
append_all e clock i (t ∷ ts) f =
    let (now, later) = clock i in
    and_then (append_text e.sys e.fwrite e.fuel e.tid now later t f) (append_all e clock (suc i) ts)

-- The log as the appends leave it: where one is stopped by its own lock it has written its text, and where
-- it waits for another thread it has not begun; for the log before it, and that at its flush.
abbrev pub left_by : Attempt LogFile → LogFile → LogFile → (LogFile → LogFile) → LogFile
left_by (returns f') f held next = next f'
left_by (stops e) f held next = held
left_by waits f held next = f
left_by unfinished f held next = f

abbrev pub left_after : Setting → Clock → ℕ → List (List ℕ) → LogFile → LogFile
left_after e clock i [] f = f
left_after e clock i (t ∷ ts) f =
    let (now, later) = clock i in
    left_by (append_text e.sys e.fwrite e.fuel e.tid now later t f) f
      (at_flush e.tid now (write_line e.fwrite e.fuel t f.file) f) (left_after e clock (suc i) ts)

-- The work outside the mutex: the appends, the spare buffers, the flush.
unfoldable pub write_round : Setting → Clock → List FixedBuffer → LogFile → Attempt LogFile
unfolding append_all to_append
write_round e clock bs f = and_then (append_all e clock 0 (to_append e.message bs) f) (flush e.tid)

abbrev pub after_exchange : Outcome (Front × Back) → LogFile → Async → Async
after_exchange (done (front, back)) f s = record s {
  front = front;
  back = back;
  writer = writing f;
}
after_exchange (fault e) f s = record s { writer = stuck e (some f) }

-- `left` is the log as the appends leave it.
abbrev pub after_round : Attempt LogFile → Outcome (List ℕ × Back) → LogFile → Async → Async
after_round (returns f') (done (out, back)) left s = record s { back = back; writer = testing f' }
after_round (returns f') (fault e) left s = record s { writer = stuck e (some f') }
after_round (stops e) spares left s = record s { writer = stuck e (some left) }
after_round waits spares left s = record s { writer = held_up left }
after_round unfinished spares left s = record s { writer = no_fuel left }

-- The last statement of `ThreadFunc`
abbrev pub after_flush : Attempt LogFile → LogFile → Async → Async
after_flush (returns f') f s = record s { writer = returned f' }
after_flush (stops e) f s = record s { writer = stuck e (some f) }
after_flush waits f s = record s { writer = held_up f }
after_flush unfinished f s = record s { writer = no_fuel f }

abbrev pub step_from : Setting → Clock → Writer → Async → Async
step_from e clock entering s =
    if s.running
    then record s { latch = count_down s.latch; writer = testing (new_log e (clock 0).0) }
    else record s { writer = stuck assertion none }
step_from e clock (testing f) s =
    if s.running then record s { writer = exchanging f } else after_flush (flush e.tid f) f s
step_from e clock (exchanging f) s = after_exchange (exchange s.front s.back) f s
step_from e clock (writing f) s =
    after_round (write_round e clock s.back.to_write f) (write_out e.message s.back)
      (left_after e clock 0 (to_append e.message s.back.to_write) f) s
step_from e clock w s = s

unfoldable pub writer_step : Setting → Clock → Async → Async
unfolding write_round
writer_step e clock s = step_from e clock s.writer s

-- What the owner, the writing thread and threads that log do, with the text logged so far.
pub data Life (e : Setting) : Async → List ℕ → Type 0 where
  made : Life e (new_async e.size) []
  starts : {s : Async} {a : List ℕ} → Life e s a → s.owner ≡ new_object → Life e (start s) a
  waits_latch : {s : Async} {a : List ℕ} → Life e s a → s.owner ≡ at_latch → Life e (wait_latch s) a
  waits_latch_again :
      {s : Async} {a : List ℕ} → Life e s a → s.owner ≡ blocked → Life e (wait_latch_again s) a
  destroys : {s : Async} {a : List ℕ} → Life e s a → s.owner ≡ in_use → Life e (destroy s) a
  joins : {s : Async} {a : List ℕ} → Life e s a → s.owner ≡ joining → Life e (join s) a
  logs :
      {s : Async} {a : List ℕ} (line : List ℕ) (front : Front)
      → Life e s a
      → append line s.front ≡ done front
      → Life e (record s { front = front }) (a ++ kept e.size line)
  writes : {s : Async} {a : List ℕ} (clock : Clock) → Life e s a → Life e (writer_step e clock s) a

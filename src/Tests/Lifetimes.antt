-- ===== src/Tests/Lifetimes.antt =====
-- An asynchronous log that is made, started, given a line, and destroyed before it writes the line.
use my_net.Common.{ℕ, List, ◌≡◌, ◌<◌, ◌⊎◌, refl, some, [], ◌∷◌, ◌++◌, arith}
use my_net.Common.Int.{◌-ℤ◌}
use my_net.CountDownLatch.{wait_zero, count_down}
use my_net.LogFile.{new_log_file, roll_file, flush}
use my_net.Mutex.{lock, pthread_lock, unlock, assign}
use my_net.LogStream.{bzero, append as append_line}
use my_net.AsyncLogging.{Front, init, append, append_to, texts}
use my_net.AsyncLogging.Lines.{pending}
use my_net.AsyncLogging.Lifetime.{
  Setting, Clock, Async, new_async, start, wait_latch, stop, destroy, writer_step, Life, made,
  starts, waits_latch, destroys, logs, writes,
}
use my_net.AsyncLogging.Lifetime.Rounds.{Works}
use my_net.AsyncLogging.Lifetime.Files.{Unwritten, Life-text}
use my_net.AsyncLogging.Lifetime.Places.{log_text}
use my_net.AsyncLogging.Lifetime.Ending.{HasEnded, steps_left, IsSound, Life-stopped, Life-IsSound}
use my_net.Tests.Locks.{new_files, all_at_once, all_at_once-Answers, all_at_once-works}

-- Buffers of two characters, and a log that does not flush by itself.
abbrev setting : Setting
setting = record {
  roll_size = 100;
  flush_interval = 3;
  basename = b'l' ∷ [];
  size = 2;
  sys = new_files;
  fwrite = all_at_once;
  fuel = 3;
  tid = 7;
  message = [];
  start_period = 0;
  last_flush = 0;
  last_roll = 0;
  append_count = 0;
}

setting-Works : Works setting
setting-Works = record {
  new_files = λ name. refl;
  answers = all_at_once-Answers;
  no_error = all_at_once-works;
  enough = omega arith;
}

abbrev clock : Clock
clock i = (90001, 90001)

abbrev in_loop : Async
in_loop = wait_latch (writer_step setting clock (start (new_async 2)))

abbrev one_line : Front
one_line = record (init 2) { cur = (some (record { chars = b'a' ∷ 0 ∷ []; cur = 1 })) }

abbrev destroyed : Async
destroyed = destroy (record in_loop { front = one_line })

destroyed_run : Life setting destroyed (b'a' ∷ [])
unfolding new_async init bzero start wait_latch wait_zero count_down writer_step append append_to
    append_line ◌-ℤ◌
destroyed_run =
    destroys (logs (b'a' ∷ []) one_line (waits_latch (writes clock (starts made refl)) refl) refl)
      refl

Life-text_example :
    (left : List ℕ) × Unwritten destroyed.writer (texts destroyed.back.to_write) left
    × (b'a' ∷ [] ≡ log_text destroyed.writer ++ (left ++ pending destroyed.front))
Life-text_example = Life-text setting-Works destroyed_run

Life-stopped_example :
    HasEnded destroyed (b'a' ∷ [])
    ⊎ (steps_left (writer_step setting clock destroyed).writer < steps_left destroyed.writer)
unfolding new_async start wait_latch wait_zero count_down writer_step destroy stop ◌-ℤ◌
Life-stopped_example = Life-stopped setting-Works destroyed_run refl clock

Life-IsSound_example : IsSound destroyed.writer
Life-IsSound_example = Life-IsSound setting-Works destroyed_run

-- The writing thread ends without the line.
line_lost : log_text (writer_step setting clock destroyed).writer ≡ []
unfolding new_async start wait_latch wait_zero count_down writer_step destroy stop new_log_file
    roll_file flush lock pthread_lock unlock assign ◌-ℤ◌
line_lost = refl

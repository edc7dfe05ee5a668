-- ===== src/Tests/Locks.antt =====
-- Examples for MyNet/base: Mutex.h and LogFile.cc.
use my_net.Common.{◌≡◌, inl, refl, arith, true, false, Option, none, some, [], ◌∷◌, length}
use my_net.Common.Outcome.{returns, stops, deadlock}
use my_net.Mutex.{MutexLock, init}
use my_net.FileUtil.{Fwrite, open_file, write_line}
use my_net.FileUtil.Writing.{Answers, Failed}
use my_net.LogFile.{System, LogFile, append, append_unlocked, check_file, flush}
use my_net.LogFile.Rolling.{IsReady, text}
use my_net.LogFile.Appends.{append-deadlock, append-Appended, no_more, one_more, Appends-text}

-- A stream that takes what it is given.
abbrev pub all_at_once : Fwrite
all_at_once i line = (length line, false)

pub all_at_once-Answers : Answers all_at_once
all_at_once-Answers = record { at_most = λ i line. omega arith; some_or_error = λ i line h. inl h }

pub all_at_once-works : ¬ Failed all_at_once
all_at_once-works (i, line, e) = cc

abbrev pub new_files : System
new_files = record {
  stamp = λ now. b'.' ∷ [];
  hostname = b'h' ∷ [];
  pid = b'9' ∷ [];
  opened = λ name. open_file true [];
}

-- A log file that flushes with each line, and is large after 100 characters.
abbrev log_file : Option MutexLock → LogFile
log_file mutex = record {
  mutex = mutex;
  file = open_file true [];
  closed = [];
  start_period = 86400;
  last_flush = 90000;
  last_roll = 90000;
  append_count = 0;
  roll_size = 100;
  basename = b'l' ∷ [];
  flush_interval = 0;
  check_every_n = 1;
}

append-deadlock_example :
    append new_files all_at_once 3 7 90001 90001 (b'x' ∷ b'y' ∷ []) (log_file (some init))
    ≡ stops deadlock
append-deadlock_example =
    append-deadlock new_files all_at_once 3 7 90001 90001 (b'x' ∷ b'y' ∷ []) (λ name. refl)
      all_at_once-Answers all_at_once-works (omega arith) (log_file (some init)) (refl, refl)
      (λ e. cc)
      (record {
        small = omega arith;
        checked = omega arith;
        same_period = refl;
        interval_over = omega arith;
      })

append-Appended_example :
    (f' : LogFile) × (append new_files all_at_once 3 7 90001 90001
        (b'x' ∷ b'y' ∷ [])
        (log_file none)
      ≡ returns f')
    × ((text f' ≡ b'x' ∷ b'y' ∷ []) × IsReady f')
append-Appended_example =
    append-Appended new_files all_at_once 3 7 90001 90001 (b'x' ∷ b'y' ∷ []) (λ name. refl)
      all_at_once-Answers all_at_once-works (omega arith) (log_file none) (tt, refl) (inl refl)

-- The log after a line of two characters and a flush.
abbrev flushed : LogFile
flushed = record (log_file none) {
  file = record { valid = true; bytes_written = 2; file = b'x' ∷ b'y' ∷ [] };
  last_flush = 90001;
}

one_append :
    append new_files all_at_once 3 7 90001 90001 (b'x' ∷ b'y' ∷ []) (log_file none)
    ≡ returns flushed
unfolding append append_unlocked check_file flush write_line
one_append = refl

Appends-text_example : (text flushed ≡ b'x' ∷ b'y' ∷ []) × IsReady flushed
Appends-text_example =
    Appends-text new_files all_at_once 3 (λ name. refl) all_at_once-Answers all_at_once-works
      (tt, refl) (one_more 7 90001 90001 (b'x' ∷ b'y' ∷ []) no_more (omega arith) one_append)

-- ===== src/LogFile.antt =====
-- MyNet/base/LogFile.cc and .h: a log file that is closed for a new one when it is large or a day is over.
-- Times, counts and intervals are at least 0. What the constructor leaves without a value is an argument
-- of the model's.
pub mod Rolling
pub mod Appends
use my_net.Common.{
  ℕ, ◌+◌, ◌*◌, ◌/◌, ◌==◌, leb, ltb, not, if◌then◌else◌, Bool, true, false, Option, none, some, List,
  [], ◌∷◌, ◌++◌, length,
}
use mathlib.Core.Option
use my_net.Common.Outcome.{Attempt, returns, stops, waits, unfinished, and_then}
use my_net.FileUtil.{WriteFile, Fwrite, write_line}
use my_net.Mutex.{MutexLock, init, lock, unlock}

-- What the system says: `gmtime_r` and `strftime` of a time, the name of the host, the digits of the
-- process, and a file that `WriteFile` opens.
pub record System : Type 0 where
  pub stamp : ℕ → List ℕ
  pub hostname : List ℕ
  pub pid : List ℕ
  pub opened : List ℕ → WriteFile

-- The constants of an object, and `m_mutexLock`; `closed` are the files that it has closed.
pub record LogFile : Type 0 where
  pub mutex : Option MutexLock
  pub file : WriteFile
  pub closed : List WriteFile
  pub start_period : ℕ
  pub last_flush : ℕ
  pub last_roll : ℕ
  pub append_count : ℕ
  pub roll_size : ℕ
  pub basename : List ℕ
  pub flush_interval : ℕ
  pub check_every_n : ℕ

abbrev pub roll_period : ℕ
roll_period = 24 * 60 * 60

abbrev pub period_of : ℕ → ℕ
period_of now = now / roll_period * roll_period

unfoldable pub get_log_file_name : System → List ℕ → ℕ → List ℕ
get_log_file_name sys basename now =
    basename
    ++ (sys.stamp now ++ (sys.hostname ++ (b'.' ∷ sys.pid ++ b'.' ∷ b'l' ∷ b'o' ∷ b'g' ∷ [])))

-- `now` is the time that `getLogFileName` gives back.
unfoldable pub roll_file : System → ℕ → LogFile → Bool × LogFile
unfolding get_log_file_name
roll_file sys now f =
    let filename = get_log_file_name sys f.basename now in
    let start = period_of now in
    if ltb f.last_roll now
    then (
      true,
      record f {
        last_roll = now;
        last_flush = now;
        start_period = start;
        file = sys.opened filename;
        closed = f.closed ++ (f.file ∷ []);
      },
    )
    else (false, f)

-- `start`, `flushed`, `rolled` and `count` are the fields that have no initialiser.
unfoldable pub new_log_file :
    System → ℕ → (start flushed rolled count : ℕ) → Bool → ℕ → List ℕ → ℕ → ℕ → LogFile
unfolding roll_file
new_log_file sys now start flushed rolled count threadsafe rollsize basename interval every =
    (roll_file sys now (record {
      mutex = if threadsafe then some init else none;
      file = sys.opened basename;
      closed = [];
      start_period = start;
      last_flush = flushed;
      last_roll = rolled;
      append_count = count;
      roll_size = rollsize;
      basename = basename;
      flush_interval = interval;
      check_every_n = every;
    })).1

-- What a `MutexLockGuard` does around `body`, if there is a lock.
abbrev pub release : LogFile → LogFile
release f = record f { mutex = Option.map unlock f.mutex }

abbrev pub in_lock : Option MutexLock → ℕ → (LogFile → Attempt LogFile) → LogFile → Attempt LogFile
in_lock none tid body f = body f
in_lock (some m) tid body f =
    and_then (lock tid m)
      (λ m'. and_then (body (record f { mutex = some m' })) (λ f'. returns (release f')))

abbrev pub guarded : ℕ → (LogFile → Attempt LogFile) → LogFile → Attempt LogFile
guarded tid body f = in_lock f.mutex tid body f

-- `fflush` hands on what the file has taken already.
unfoldable pub flush : ℕ → LogFile → Attempt LogFile
flush tid f = guarded tid returns f

-- `now` is the time of this call, `later` that of the call in `rollFile`.
unfoldable pub check_file : System → ℕ → ℕ → ℕ → LogFile → Attempt LogFile
unfolding roll_file flush
check_file sys tid now later f =
    let this_period = period_of now in
    if not (this_period == f.start_period)
    then returns (roll_file sys later f).1
    else (if leb (f.last_flush + f.flush_interval) now
        then flush tid (record f { last_flush = now })
        else returns f)

abbrev pub after_write : System → ℕ → ℕ → ℕ → LogFile → Attempt LogFile
after_write sys tid now later f =
    if leb f.roll_size f.file.bytes_written
    then returns (roll_file sys later f).1
    else (let count = f.append_count + 1 in
        (if leb f.check_every_n count
          then check_file sys tid now later (record f { append_count = 0 })
          else returns (record f { append_count = count })))

abbrev pub written : System → ℕ → ℕ → ℕ → LogFile → Option (ℕ × WriteFile) → Attempt LogFile
written sys tid now later f none = unfinished
written sys tid now later f (some (n, file)) =
    after_write sys tid now later (record f { file = file })

-- The log in an append that has come to the `flush` of `check_file`, with the lock that the thread has.
abbrev pub at_flush : ℕ → ℕ → Option (ℕ × WriteFile) → LogFile → LogFile
at_flush tid now none f = f
at_flush tid now (some (n, file)) f = record f {
  file = file;
  append_count = 0;
  last_flush = now;
  mutex = Option.map (λ m. record { owner = some tid; holder = tid }) f.mutex;
}

unfoldable pub append_unlocked :
    System → Fwrite → ℕ → ℕ → ℕ → ℕ → List ℕ → LogFile → Attempt LogFile
unfolding roll_file check_file
append_unlocked sys fwrite fuel tid now later line f =
    written sys tid now later f (write_line fwrite fuel line f.file)

unfoldable pub append : System → Fwrite → ℕ → ℕ → ℕ → ℕ → List ℕ → LogFile → Attempt LogFile
unfolding append_unlocked
append sys fwrite fuel tid now later line f =
    guarded tid (append_unlocked sys fwrite fuel tid now later line) f

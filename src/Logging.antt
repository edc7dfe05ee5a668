-- ===== src/Logging.antt =====
-- MyNet/base/Logging.h and .cc: one line of a log, from the macro to the output. `gmtime_r`, `snprintf`
-- and `strerror_r` are arguments; so is the text of what `toLocalTime` gives, which is not initialised there.
pub mod Lines
pub mod Output
pub mod Files
use my_net.Common.{
  ℕ, ◌+◌, ◌==◌, leb, not, if◌then◌else◌, Bool, true, false, Option, none, some, List, [], ◌∷◌, ◌++◌,
  length,
}
use my_net.Common.Int.{ℤ, pos, eqb_ℤ}
use my_net.Common.Outcome.{Outcome, done, check, ◌>>=◌, ◌>>◌}
use my_net.LogStream.{FixedBuffer, Item, text, integer, make, small_buffer, put, as_string}
use my_net.Timestamp.{Timestamp, secs_since_epoch, microseconds}
use my_net.ThreadOp.{ThreadLocals, tid}
use my_net.TimeZone.{Zone, valid}

pub data LogLevel : Type 0 where
  trace debug info warn error fatal : LogLevel

abbrev pub number : LogLevel → ℕ
number trace = 0
number debug = 1
number info = 2
number warn = 3
number error = 4
number fatal = 5

-- Which of the two variables is in the environment.
unfoldable pub init_log_level : Bool → Bool → LogLevel
init_log_level has_trace has_debug =
    if has_trace then trace else (if has_debug then debug else info)

abbrev pub log_level_name : LogLevel → List ℕ
log_level_name trace = b'T' ∷ b'R' ∷ b'A' ∷ b'C' ∷ b'E' ∷ b' ' ∷ []
log_level_name debug = b'D' ∷ b'E' ∷ b'B' ∷ b'U' ∷ b'G' ∷ b' ' ∷ []
log_level_name info = b'I' ∷ b'N' ∷ b'F' ∷ b'O' ∷ b' ' ∷ b' ' ∷ []
log_level_name warn = b'W' ∷ b'A' ∷ b'R' ∷ b'N' ∷ b' ' ∷ b' ' ∷ []
log_level_name error = b'E' ∷ b'R' ∷ b'R' ∷ b'O' ∷ b'R' ∷ b' ' ∷ []
log_level_name fatal = b'F' ∷ b'A' ∷ b'T' ∷ b'A' ∷ b'L' ∷ b' ' ∷ []

-- A function of the output or of the flush: the code's own, which takes `stdout`, or the user's.
pub data Function : Type 0 where
  default_output default_flush : Function
  user : ℕ → Function

-- What is called at the end of a line.
pub data Event : Type 0 where
  outputs : Function → List ℕ → Event
  flushes : Function → Event
  aborts : Event

-- The global variables; the zone is none at first.
pub record Globals : Type 0 where
  pub log_level : LogLevel
  pub time_zone : Zone
  pub output : Function
  pub flush : Function

unfoldable pub init_globals : Bool → Bool → Globals
unfolding init_log_level
init_globals has_trace has_debug = record {
  log_level = init_log_level has_trace has_debug;
  time_zone = none;
  output = default_output;
  flush = default_flush;
}

unfoldable pub set_log_level : LogLevel → Globals → Globals
set_log_level level g = record g { log_level = level }

unfoldable pub set_time_zone : Zone → Globals → Globals
set_time_zone tz g = record g { time_zone = tz }

unfoldable pub set_output : Function → Globals → Globals
set_output out g = record g { output = out }

unfoldable pub set_flush : Function → Globals → Globals
set_flush flush g = record g { flush = flush }

-- The macros: whether a line of a level is made. Those of the last two levels have no macro.
unfoldable pub is_logged : LogLevel → LogLevel → Bool
is_logged g_log_level trace = leb (number g_log_level) (number trace)
is_logged g_log_level debug = leb (number g_log_level) (number debug)
is_logged g_log_level info = leb (number g_log_level) (number info)
is_logged g_log_level level = true

-- `strchr` and `strrchr`: what follows the first or the last '/', if there is one.
abbrev pub after_first : List ℕ → Option (List ℕ)
after_first [] = none
after_first (c ∷ cs) = if c == b'/' then some cs else after_first cs

abbrev pub later : Option (List ℕ) → ℕ → List ℕ → Option (List ℕ)
later (some name) c cs = some name
later none c cs = if c == b'/' then some cs else none

abbrev pub after_last : List ℕ → Option (List ℕ)
after_last [] = none
after_last (c ∷ cs) = later (after_last cs) c cs

abbrev pub or_all : List ℕ → Option (List ℕ) → List ℕ
or_all name none = name
or_all name (some rest) = rest

-- `SourceFile` of a literal, and of a pointer.
unfoldable pub of_literal : List ℕ → List ℕ
of_literal arr = or_all arr (after_last arr)

unfoldable pub of_pointer : List ℕ → List ℕ
of_pointer filename = or_all filename (after_first filename)

-- The text of a second in Greenwich and in the zone, with "%4d%02d%02d %02d:%02d:%02d"; a number with
-- "%06d" and with "%5d "; the text of an error. And what the kernel calls the thread.
pub record System : Type 0 where
  pub utc_text : ℤ → List ℕ
  pub local_text : ℤ → List ℕ
  pub six : ℤ → List ℕ
  pub five : ℕ → List ℕ
  pub strerror : ℕ → List ℕ
  pub gettid : ℕ

-- `t_time`, `t_lastSecond` and the variables of ThreadOp, of one thread.
pub record Locals : Type 0 where
  pub time : List ℕ
  pub last_second : ℤ
  pub thread : ThreadLocals

pub record Impl : Type 0 where
  pub time : Timestamp
  pub stream : FixedBuffer
  pub level : LogLevel
  pub line : ℤ
  pub basename : List ℕ

-- `stream << T(str, len)`
abbrev pub put_t : List ℕ → ℕ → FixedBuffer → Outcome FixedBuffer
put_t str len s = check (length str == len) >> done (put (text str) s)

abbrev pub second_text : System → Zone → ℤ → List ℕ
second_text sys tz seconds = if valid tz then sys.local_text seconds else sys.utc_text seconds

abbrev pub fraction_text : System → Zone → ℤ → List ℕ
fraction_text sys tz us = b'.' ∷ sys.six us ++ (if valid tz then b' ' ∷ [] else b'Z' ∷ b' ' ∷ [])

unfoldable pub cache_second : System → Zone → ℤ → Locals → Outcome Locals
cache_second sys tz seconds l =
    if not (eqb_ℤ seconds l.last_second)
    then (let str = second_text sys tz seconds in
        (check (length str == 17) >> done (record l { time = str; last_second = seconds })))
    else done l

unfoldable pub format_time :
    System → Zone → Timestamp → Locals → FixedBuffer → Outcome (Locals × FixedBuffer)
unfolding cache_second
format_time sys tz time l stream =
    let us = fraction_text sys tz (microseconds time) in
    let size = if valid tz then 8 else 9 in
    cache_second sys tz (secs_since_epoch time) l >>= λ l'.
    (check (length us == size)
      >> (put_t l'.time 17 stream >>= λ s. (put_t us size s >>= λ s'. done (l', s'))))

abbrev pub error_items : System → ℕ → List Item
error_items sys saved_errno =
    if not (saved_errno == 0)
    then text (sys.strerror saved_errno)
      ∷ text (b'(' ∷ b'e' ∷ b'r' ∷ b'r' ∷ b'n' ∷ b'o' ∷ b'=' ∷ [])
      ∷ integer (pos saved_errno)
      ∷ text (b')' ∷ [])
      ∷ []
    else []

-- `<<` of several things in a row.
abbrev pub put_all : List Item → FixedBuffer → FixedBuffer
put_all [] s = s
put_all (item ∷ items) s = put_all items (put item s)

unfoldable pub new_impl :
    System → Zone → Timestamp → LogLevel → ℕ → List ℕ → ℤ → Locals → Outcome (Locals × Impl)
unfolding format_time
new_impl sys tz now level saved_errno file line l =
    format_time sys tz now l (make small_buffer) >>= λ (l', s).
    (let thread = (tid sys.five sys.gettid l'.thread).1 in
      (put_t thread.tid_string thread.tid_string_length s >>= λ s1.
      (put_t (log_level_name level) 6 s1 >>= λ s2.
      (done (
        record l' { thread = thread },
        record {
          time = now;
          stream = put_all (error_items sys saved_errno) s2;
          level = level;
          line = line;
          basename = file;
        },
      )))))

unfoldable pub finish : Impl → Impl
finish impl = record impl {
  stream =
      put_all
        (text (b'-' ∷ [])
          ∷ text impl.basename
          ∷ text (b':' ∷ [])
          ∷ integer impl.line
          ∷ text (10 ∷ [])
          ∷ [])
        impl.stream;
}

-- The destructor: what `g_output` is given, and whether `g_flush` and `abort` follow.
unfoldable pub end_line : Impl → List ℕ × Bool
unfolding finish
end_line impl = (as_string (finish impl).stream, number impl.level == number fatal)

-- A line: the constructor, what the user puts into the stream, and the destructor.
unfoldable pub log_line :
    System
    → Zone
    → Timestamp
    → LogLevel
    → ℕ
    → List ℕ
    → ℤ
    → List Item
    → Locals
    → Outcome (Locals × (List ℕ × Bool))
unfolding new_impl end_line
log_line sys tz now level saved_errno file line items l =
    new_impl sys tz now level saved_errno file line l >>= λ (l', impl).
    (done (l', end_line (record impl { stream = put_all items impl.stream })))

-- The calls of the destructor for what `end_line` gives it.
unfoldable pub deliver : Globals → List ℕ × Bool → List Event
deliver g (line, to_abort) =
    outputs g.output line ∷ (if to_abort then flushes g.flush ∷ aborts ∷ [] else [])

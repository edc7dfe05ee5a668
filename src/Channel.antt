-- ===== src/Channel.antt =====
-- MyNet/net/Channel.cc and .h: the events of one descriptor and the calls that they lead to. The
-- callbacks and the event loop (MyNet/net/EventLoop.h is empty) are the program's environment: the
-- model says which of them are called, in which order, for callbacks that leave the channel's events
-- and callbacks as they are. Log output is left out.
pub mod Dispatch
pub mod Interest
pub mod Text
use my_net.Common.{
  Bool, true, false, not, ◌&&◌, ◌||◌, if◌then◌else◌, List, [], ◌∷◌, ◌++◌, Option, none, some,
}
use my_net.Common.Int.{ℤ, negsuc}
use my_net.Common.Outcome.{Outcome, done, check, ◌>>=◌, ◌>>◌}

-- The bits of <poll.h> in an event mask that the code names, and whether any other bit is set.
pub record Mask : Type 0 where
  pub pollin : Bool
  pub pollpri : Bool
  pub pollout : Bool
  pub pollerr : Bool
  pub pollhup : Bool
  pub pollnval : Bool
  pub pollrdhup : Bool
  pub others : Bool

-- `a | b`
abbrev pub bit_or : Mask → Mask → Mask
bit_or a b = record {
  pollin = a.pollin || b.pollin;
  pollpri = a.pollpri || b.pollpri;
  pollout = a.pollout || b.pollout;
  pollerr = a.pollerr || b.pollerr;
  pollhup = a.pollhup || b.pollhup;
  pollnval = a.pollnval || b.pollnval;
  pollrdhup = a.pollrdhup || b.pollrdhup;
  others = a.others || b.others;
}

-- `mask == 0`
abbrev pub is_zero : Mask → Bool
is_zero a = not (
    a.pollin || a.pollpri || a.pollout || a.pollerr || a.pollhup || a.pollnval || a.pollrdhup
    || a.others)

-- `kNoneEvent`, `kReadEvent`, `kWriteEvent`
abbrev pub none_event : Mask
none_event = record {
  pollin = false;
  pollpri = false;
  pollout = false;
  pollerr = false;
  pollhup = false;
  pollnval = false;
  pollrdhup = false;
  others = false;
}

abbrev pub read_event : Mask
read_event = record none_event { pollin = true; pollpri = true }

abbrev pub write_event : Mask
write_event = record none_event { pollout = true }

-- `~mask` for a mask of named bits
abbrev pub complement : Mask → Mask
complement a = record {
  pollin = not a.pollin;
  pollpri = not a.pollpri;
  pollout = not a.pollout;
  pollerr = not a.pollerr;
  pollhup = not a.pollhup;
  pollnval = not a.pollnval;
  pollrdhup = not a.pollrdhup;
  others = true;
}

-- `loop_->updateChannel(this)` with the mask that the loop then sees, `loop_->removeChannel(this)`,
-- and the callbacks.
pub data Call : Type 0 where
  update_channel : Mask → Call
  remove_channel : Call
  close_callback error_callback read_callback write_callback : Call

pub record Channel : Type 0 where
  pub events : Mask
  pub revents : Mask
  pub index : ℤ
  pub log_hup : Bool
  pub tied : Bool
  pub event_handling : Bool
  pub added_to_loop : Bool
  pub has_read : Bool
  pub has_write : Bool
  pub has_close : Bool
  pub has_error : Bool

abbrev pub init : Channel
init = record {
  events = none_event;
  revents = none_event;
  index = negsuc 0;
  log_hup = true;
  tied = false;
  event_handling = false;
  added_to_loop = false;
  has_read = false;
  has_write = false;
  has_close = false;
  has_error = false;
}

unfoldable pub set_read_callback : Bool → Channel → Channel
set_read_callback b c = record c { has_read = b }

unfoldable pub set_write_callback : Bool → Channel → Channel
set_write_callback b c = record c { has_write = b }

unfoldable pub set_error_callback : Bool → Channel → Channel
set_error_callback b c = record c { has_error = b }

unfoldable pub set_close_callback : Bool → Channel → Channel
set_close_callback b c = record c { has_close = b }

unfoldable pub tie : Channel → Channel
tie c = record c { tied = true }

unfoldable pub set_revents : Mask → Channel → Channel
set_revents m c = record c { revents = m }

unfoldable pub set_index : ℤ → Channel → Channel
set_index idx c = record c { index = idx }

unfoldable pub do_not_log_hup : Channel → Channel
do_not_log_hup c = record c { log_hup = false }

unfoldable pub is_none_event : Channel → Bool
is_none_event c = is_zero c.events

unfoldable pub is_writing : Channel → Bool
is_writing c = c.events.pollout

unfoldable pub update : Channel → Channel × List Call
update c = (record c { added_to_loop = true }, update_channel c.events ∷ [])

unfoldable pub enable_reading : Channel → Channel × List Call
unfolding update
enable_reading c = update (record c { events = bit_or c.events read_event })

unfoldable pub disable_reading : Channel → Channel × List Call
unfolding update
disable_reading c = update (record c { events = bit_or c.events (complement read_event) })

unfoldable pub enable_writing : Channel → Channel × List Call
unfolding update
enable_writing c = update (record c { events = bit_or c.events write_event })

unfoldable pub disable_writing : Channel → Channel × List Call
unfolding update
disable_writing c = update (record c { events = bit_or c.events (complement write_event) })

unfoldable pub disable_all : Channel → Channel × List Call
unfolding update
disable_all c = update (record c { events = none_event })

unfoldable pub remove : Channel → Outcome (Channel × List Call)
unfolding is_none_event
remove c = do
  check (is_none_event c)
  done (record c { added_to_loop = false }, remove_channel ∷ [])

-- The destructor's assertions on the channel itself; that the loop has no such channel is the loop's.
unfoldable pub destroy : Channel → Outcome (Unit {0})
destroy c = do check (not c.event_handling); check (not c.added_to_loop); done tt

abbrev pub call_if : Bool → Call → List Call
call_if b k = if b then k ∷ [] else []

-- `event_handling` is set throughout; the second part is the channel as the callbacks see it.
unfoldable pub handle_event_with_guard : Channel → List Call × Channel × Channel
handle_event_with_guard c =
    let during : Channel = record c { event_handling = true } in
    let r = c.revents in
    (
      call_if (r.pollhup && not r.pollin && c.has_close) close_callback
          ++ (call_if ((r.pollerr || r.pollnval) && c.has_error) error_callback
              ++ (call_if ((r.pollin || r.pollpri || r.pollrdhup) && c.has_read) read_callback
                  ++ call_if (r.pollout && c.has_write) write_callback)),
      during,
      record during { event_handling = false },
    )

-- `owner` says whether the tied owner is still alive when `tie_.lock()` asks for it.
unfoldable pub handle_event : Bool → Channel → List Call × Channel
unfolding handle_event_with_guard
handle_event owner c =
    let (calls, during, after) = handle_event_with_guard c in
    if c.tied then (if owner then (calls, after) else ([], c)) else (calls, after)

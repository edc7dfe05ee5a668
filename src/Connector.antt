-- ===== src/Connector.antt =====
-- MyNet/net/Connector.cc and .h: a connector's attempts to reach a server. The methods `connecting`,
-- `retry` and `removeAndResetChannel` are declared and not defined, and MyNet/net/EventLoop.h is empty:
-- what the methods do to the connector, and what they give the loop, is a parameter, and the loop runs what
-- it is given, in any order.
-- Log output is left out.
pub mod Sockets
use my_net.Common.{
  ℕ, ◌+◌, ◌≡◌, length, if◌then◌else◌, Bool, true, false, not, Option, none, some, List, [], ◌∷◌,
  ◌++◌,
}
use my_net.Common.Outcome.{Outcome, done, check, ◌>>=◌, ◌>>◌}

pub data State : Type 0 where
  disconnected in_progress connected : State

-- `retryDelayMs_` starts with `kInitRetryDelayMs`; `has_channel` says whether `channel_` is set.
pub record Connector : Type 0 where
  pub connect_wanted : Bool
  pub state : State
  pub has_channel : Bool
  pub has_callback : Bool
  pub retry_delay_ms : ℕ

-- The values of `errno` that `connect` names, and the others.
pub data Errno : Type 0 where
  einprogress eintr eisconn : Errno
  eagain eaddrinuse eaddrnotavail econnrefused enetunreach : Errno
  eacces eperm eafnosupport ealready ebadf efault enotsock : Errno
  unexpected : ℕ → Errno

-- What becomes of a socket, which is `none` for -1.
pub data Call : Type 0 where
  connecting retry close : Option ℕ → Call

-- The functions that the loop is given.
pub data Task : Type 0 where
  start_task stop_task : Task

-- `connecting`, `retry` and `close` of a socket, each with the functions that it gives the loop, to be run
-- now or after a delay; and `removeAndResetChannel`, which gives a socket.
pub record Methods : Type 0 where
  pub called : Call → Connector → Connector × List Task
  pub remove_and_reset_channel : Connector → Option ℕ × Connector

-- What a step of the loop leads to: the connector, the sockets that it came by, what became of them, and
-- what the loop is given.
pub record Led : Type 0 where
  pub connector : Connector
  pub got : List (Option ℕ)
  pub calls : List Call
  pub given : List Task

abbrev pub init_retry_delay_ms : ℕ
init_retry_delay_ms = 500

abbrev pub new_connector : Connector
new_connector = record {
  connect_wanted = false;
  state = disconnected;
  has_channel = false;
  has_callback = false;
  retry_delay_ms = init_retry_delay_ms;
}

unfoldable pub destroy : Connector → Outcome (Unit {0})
destroy c = check (not c.has_channel)

unfoldable pub set_new_connection_callback : Connector → Connector
set_new_connection_callback c = record c { has_callback = true }

unfoldable pub set_state : State → Connector → Connector
set_state s c = record c { state = s }

unfoldable pub start : Connector → Connector × Task
start c = (record c { connect_wanted = true }, start_task)

unfoldable pub stop : Connector → Connector × Task
stop c = (record c { connect_wanted = false }, stop_task)

-- The `switch` of `connect`; `none` is a `connect` that succeeds.
unfoldable pub answer : Option ℕ → Option Errno → Call
answer sockfd none = connecting sockfd
answer sockfd (some einprogress) = connecting sockfd
answer sockfd (some eintr) = connecting sockfd
answer sockfd (some eisconn) = connecting sockfd
answer sockfd (some eagain) = retry sockfd
answer sockfd (some eaddrinuse) = retry sockfd
answer sockfd (some eaddrnotavail) = retry sockfd
answer sockfd (some econnrefused) = retry sockfd
answer sockfd (some enetunreach) = retry sockfd
answer sockfd (some eacces) = close sockfd
answer sockfd (some eperm) = close sockfd
answer sockfd (some eafnosupport) = close sockfd
answer sockfd (some ealready) = close sockfd
answer sockfd (some ebadf) = close sockfd
answer sockfd (some efault) = close sockfd
answer sockfd (some enotsock) = close sockfd
answer sockfd (some (unexpected e)) = close sockfd

abbrev pub is_disconnected : State → Bool
is_disconnected disconnected = true
is_disconnected in_progress = false
is_disconnected connected = false

abbrev pub is_connected : State → Bool
is_connected disconnected = false
is_connected in_progress = false
is_connected connected = true

abbrev pub nothing_led : Connector → Led
nothing_led c = record { connector = c; got = []; calls = []; given = [] }

-- `sockfd` is what `createNonBlockingOrDie` gives, -1 included.
module _ (methods : Methods) where
  -- A socket is given to one of the methods.
  abbrev pub hand_on : Option ℕ → Call → Connector → Led
  hand_on sockfd call c =
      let (c', given) = methods.called call c in
      record { connector = c'; got = sockfd ∷ []; calls = call ∷ []; given = given }

  unfoldable pub connect : Option ℕ → Option Errno → Connector → Led
  unfolding answer
  connect sockfd errno c = hand_on sockfd (answer sockfd errno) c

  unfoldable pub start_in_loop : Option ℕ → Option Errno → Connector → Outcome Led
  unfolding connect
  start_in_loop sockfd errno c =
      check (is_disconnected c.state)
      >> done (if c.connect_wanted then connect sockfd errno c else nothing_led c)

  unfoldable pub stop_in_loop : Connector → Led
  unfolding set_state
  stop_in_loop c =
      let (sockfd, c') = methods.remove_and_reset_channel (set_state disconnected c) in
      if is_connected c.state then hand_on sockfd (retry sockfd) c' else nothing_led c

  -- A connector with what the loop has still to run for it, how often it was started, what its methods
  -- gave the loop, how many sockets it made, those that it came by, and what became of them.
  pub record Run : Type 0 where
    pub connector : Connector
    pub tasks : List Task
    pub starts : ℕ
    pub given : List Task
    pub made : ℕ
    pub sockets : List (Option ℕ)
    pub calls : List Call

  -- The run after a step of the loop that leaves it so much to do.
  abbrev pub after_step : Run → List Task → ℕ → Led → Run
  after_step r left made led = record r {
    connector = led.connector;
    tasks = left ++ led.given;
    given = r.given ++ led.given;
    made = r.made + made;
    sockets = r.sockets ++ led.got;
    calls = r.calls ++ led.calls;
  }

  -- What the user, the loop and the methods that are not defined do, the handlers of the channel included.
  pub data Trace : Run → Type 0 where
    new : Trace (record {
      connector = new_connector;
      tasks = [];
      starts = 0;
      given = [];
      made = 0;
      sockets = [];
      calls = [];
    })
    starts_again :
        {r : Run}
        → Trace r
        → Trace (record r {
          connector = (start r.connector).0;
          tasks = r.tasks ++ ((start r.connector).1 ∷ []);
          starts = r.starts + 1;
        })
    stops :
        {r : Run}
        → Trace r
        → Trace (record r {
          connector = (stop r.connector).0;
          tasks = r.tasks ++ ((stop r.connector).1 ∷ []);
        })
    runs_start :
        {r : Run} (before after : List Task) (sockfd : Option ℕ) (errno : Option Errno) (led : Led)
        → Trace r
        → r.tasks ≡ before ++ (start_task ∷ after)
        → start_in_loop sockfd errno r.connector ≡ done led
        → Trace (after_step r (before ++ after) (length led.got) led)
    runs_stop :
        {r : Run} (before after : List Task)
        → Trace r
        → r.tasks ≡ before ++ (stop_task ∷ after)
        → Trace (after_step r (before ++ after) 0 (stop_in_loop r.connector))
    changes :
        {r : Run} (c : Connector) (given : List Task)
        → Trace r
        → Trace (record r { connector = c; tasks = r.tasks ++ given; given = r.given ++ given })

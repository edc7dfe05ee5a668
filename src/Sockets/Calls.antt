-- ===== src/Sockets/Calls.antt =====
-- MyNet/net/SocketsOps.cc and Socket.cc: the calls on a socket that only ask the system for something.
-- Each is given what the system answers, which none of them looks at; a log keeps both. A descriptor is
-- `none` for -1.
use my_net.Common.{ℕ, if◌then◌else◌, Bool, true, false, Option, none, some, List, [], ◌∷◌, ◌++◌}
use my_net.Sockets.{SockAddr}

pub data SocketOption : Type 0 where
  tcp_nodelay so_keepalive so_reuseaddr so_reuseport : SocketOption

pub data Request : Type 0 where
  make_socket : Request
  bind : Option ℕ → SockAddr → Request
  listen shutdown_write close : Option ℕ → Request
  connect : Option ℕ → SockAddr → Request
  set_option : Option ℕ → SocketOption → ℕ → Request

abbrev pub Log : Type 0
Log = List (Request × Bool)

abbrev note : Request → Bool → Log → Log
note r ok log = log ++ ((r, ok) ∷ [])

-- The descriptor is handed on, also if there is none.
unfoldable pub create_non_blocking_or_die : Option ℕ → Log → Option ℕ × Log
create_non_blocking_or_die none log = (none, note make_socket false log)
create_non_blocking_or_die (some fd) log = (some fd, note make_socket true log)

unfoldable pub bind_or_die : Option ℕ → SockAddr → Bool → Log → Log
bind_or_die sockfd addr ok log = note (bind sockfd addr) ok log

unfoldable pub listen_or_die : Option ℕ → Bool → Log → Log
listen_or_die sockfd ok log = note (listen sockfd) ok log

unfoldable pub connect_socket : Option ℕ → SockAddr → Bool → Log → Bool × Log
connect_socket sockfd addr ok log = (ok, note (connect sockfd addr) ok log)

unfoldable pub close_socket : Option ℕ → Bool → Log → Log
close_socket sockfd ok log = note (close sockfd) ok log

unfoldable pub shut_down_write : Option ℕ → Bool → Log → Log
shut_down_write sockfd ok log = note (shutdown_write sockfd) ok log

-- `class Socket`: its only state is `sockfd_`.
unfoldable pub destroy : Option ℕ → Bool → Log → Log
unfolding close_socket
destroy sockfd ok log = close_socket sockfd ok log

unfoldable pub bind_address : Option ℕ → SockAddr → Bool → Log → Log
unfolding bind_or_die
bind_address sockfd localaddr ok log = bind_or_die sockfd localaddr ok log

unfoldable pub listen_on : Option ℕ → Bool → Log → Log
unfolding listen_or_die
listen_on sockfd ok log = listen_or_die sockfd ok log

unfoldable pub shutdown_write_of : Option ℕ → Bool → Log → Log
unfolding shut_down_write
shutdown_write_of sockfd ok log = shut_down_write sockfd ok log

abbrev flag : Bool → ℕ
flag on = if on then 1 else 0

unfoldable pub set_tcp_no_delay : Option ℕ → Bool → Bool → Log → Log
set_tcp_no_delay sockfd on ok log = note (set_option sockfd tcp_nodelay (flag on)) ok log

unfoldable pub set_keep_alive : Option ℕ → Bool → Bool → Log → Log
set_keep_alive sockfd on ok log = note (set_option sockfd so_keepalive (flag on)) ok log

unfoldable pub set_reuse_addr : Option ℕ → Bool → Bool → Log → Log
set_reuse_addr sockfd on ok log = note (set_option sockfd so_reuseaddr (flag on)) ok log

unfoldable pub set_reuse_port : Option ℕ → Bool → Bool → Log → Log
set_reuse_port sockfd on ok log = note (set_option sockfd so_reuseport (flag on)) ok log

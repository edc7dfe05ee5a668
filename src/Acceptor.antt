-- ===== src/Acceptor.antt =====
-- MyNet/net/Acceptor.cc and .h: the listening socket of a loop. What the system answers, -1 being `none`, is
-- an argument; so is what `open` gives.
pub mod Descriptors
use my_net.Common.{
  ℕ, ◌==◌, if◌then◌else◌, Bool, true, false, Option, none, some, List, [], ◌∷◌, ◌++◌,
}
use my_net.Common.Outcome.{Outcome, done, check, ◌>>=◌, ◌>>◌}
use my_net.Channel.{Channel, Call, init, set_read_callback, enable_reading, disable_all, remove}
use my_net.Sockets.{SockAddr, accept}
use my_net.Sockets.Calls.{
  Log, create_non_blocking_or_die, set_reuse_addr, set_reuse_port, bind_address, listen_on,
}

-- `errno` after `accept`
pub data Errno : Type 0 where
  eagain econnaborted eintr eproto eperm emfile other : Errno

-- `descriptors` are those that this object has open; `handed` are the connections, with their addresses, that
-- it has given to its callback, the last one first; `requests` is what was asked of the system for the
-- listening socket, which is `none` for -1.
pub record Acceptor : Type 0 where
  pub accept_socket : Option ℕ
  pub channel : Channel
  pub has_callback : Bool
  pub listenning : Bool
  pub idle_fd : Option ℕ
  pub descriptors : List ℕ
  pub handed : List (ℕ × SockAddr)
  pub requests : Log

-- What the system does with its table.
abbrev pub removed : ℕ → List ℕ → List ℕ
removed fd [] = []
removed fd (x ∷ xs) = let rest = removed fd xs in if x == fd then xs else x ∷ rest

abbrev pub close : Option ℕ → List ℕ → List ℕ
close none table = table
close (some fd) table = removed fd table

abbrev is_open : Option ℕ → Bool
is_open none = false
is_open (some fd) = true

abbrev pub opened : Option ℕ → List ℕ → List ℕ
opened none table = table
opened (some fd) table = fd ∷ table

-- What the system answers to the constructor: the listening socket, the spare descriptor, and whether
-- each of the other calls succeeds.
pub record Answers : Type 0 where
  pub socket : Option ℕ
  pub spare : Option ℕ
  pub reuse_addr : Bool
  pub reuse_port : Bool
  pub bound : Bool

-- The constructor, whose assertion is that the spare descriptor is open.
unfoldable pub new_acceptor : SockAddr → Bool → Answers → Outcome Acceptor
unfolding create_non_blocking_or_die set_reuse_addr set_reuse_port bind_address
new_acceptor listen_addr reuseport a =
    let (fd, log) = create_non_blocking_or_die a.socket [] in
    check (is_open a.spare)
    >> done (record {
      accept_socket = fd;
      channel = set_read_callback true init;
      has_callback = false;
      listenning = false;
      idle_fd = a.spare;
      descriptors = opened a.spare (opened fd []);
      handed = [];
      requests =
          bind_address fd listen_addr a.bound
            (set_reuse_port fd reuseport a.reuse_port (set_reuse_addr fd true a.reuse_addr log));
    })

unfoldable pub set_new_connection_callback : Bool → Acceptor → Acceptor
set_new_connection_callback cb a = record a { has_callback = cb }

-- `ok` is the system's answer.
unfoldable pub listen : Bool → Acceptor → Acceptor × List Call
unfolding listen_on
listen ok a =
    let (c, calls) = enable_reading a.channel in
    (
      record a {
        listenning = true;
        channel = c;
        requests = listen_on a.accept_socket ok a.requests;
      },
      calls,
    )

abbrev hand_over : ℕ → SockAddr → Acceptor → Acceptor
hand_over connfd peer a =
    if a.has_callback
    then record a { handed = (connfd, peer) ∷ a.handed }
    else record a { descriptors = removed connfd a.descriptors }

-- The spare descriptor is given up for a connection that is closed at once.
abbrev refuse : Option ℕ → Option ℕ → Acceptor → Acceptor
refuse again spare a = record a {
  idle_fd = spare;
  descriptors = opened spare (close again (opened again (close a.idle_fd a.descriptors)));
}

-- `peer` is the address before the call; `again` is what the second `accept` gives, and `spare` what `open`
-- gives after it.
abbrev after_accept : Errno → Option ℕ → Option ℕ → Option ℕ × SockAddr → Acceptor → Acceptor
after_accept errno again spare (some connfd, peer) a =
    hand_over connfd peer (record a { descriptors = connfd ∷ a.descriptors })
after_accept emfile again spare (none, peer) a = refuse again spare a
after_accept errno again spare (none, peer) a = a

unfoldable pub handle_read :
    Option ℕ → SockAddr → SockAddr → Errno → Option ℕ → Option ℕ → Acceptor → Acceptor
handle_read accepted addr peer errno again spare a =
    after_accept errno again spare (accept accepted addr peer) a

-- The destructor, and those of the channel and of the socket; `ok` is the answer to the last `close`.
unfoldable pub destroy : Bool → Acceptor → Outcome (Acceptor × List Call)
unfolding my_net.Channel.destroy my_net.Sockets.Calls.destroy
destroy ok a =
    let (c, calls) = disable_all a.channel in
    (remove c >>= λ (c', more).
    my_net.Channel.destroy c'
    >> done (
      record a {
        channel = c';
        descriptors = close a.accept_socket (close a.idle_fd a.descriptors);
        requests = my_net.Sockets.Calls.destroy a.accept_socket ok a.requests;
      },
      calls ++ more,
    ))

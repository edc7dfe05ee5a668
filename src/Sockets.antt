-- ===== src/Sockets.antt =====
-- MyNet/net/SocketsOps.cc, InetAddress.cc and .h, and Socket.cc: addresses, and the calls on a socket that
-- decide something. A descriptor is `none` for -1. What only calls the system has no model.
pub mod Addresses
pub mod Calls
use my_net.Common.{
  ℕ, zero, suc, ◌+◌, ◌-◌, ◌*◌, ◌^◌, ◌==◌, ltb, leb, ◌&&◌, if◌then◌else◌, Bool, true, false, Option,
  none, some, List, [], ◌∷◌, ◌++◌, length, take, replicate,
}
use my_net.Common.Outcome.{Outcome, done, check, ◌>>◌}
use my_net.Endian.{Host, memory, host_to_network, network_to_host}

-- `struct sockaddr_in`: the values of its fields, the port and the address in the order of the network.
pub record SockAddr : Type 0 where
  pub sin_family : ℕ
  pub sin_port : ℕ
  pub s_addr : ℕ

abbrev pub zeroed : SockAddr
zeroed = record { sin_family = 0; sin_port = 0; s_addr = 0 }

abbrev pub af_inet : ℕ
af_inet = 2

abbrev pub inet_addrstrlen : ℕ
inet_addrstrlen = 16

-- Its bytes, the first ones of which `sockaddr_cast` gives to who reads an address there.
abbrev pub bytes_of : Host → SockAddr → List ℕ
bytes_of h a =
    memory h 2 a.sin_family ++ (memory h 2 a.sin_port ++ (memory h 4 a.s_addr ++ replicate 8 0))

-- `ntop` is `inet_ntop`, which reads the four bytes that it is pointed at; `show` is what `snprintf` makes of
-- a number with "%u".
module _ (h : Host) (ntop : List ℕ → List ℕ) (show : ℕ → List ℕ) where
  unfoldable pub to_ip : ℕ → SockAddr → Outcome (List ℕ)
  to_ip size addr = check (ltb inet_addrstrlen size) >> done (ntop (take 4 (bytes_of h addr)))

  unfoldable pub to_ip_port : ℕ → SockAddr → Outcome (List ℕ)
  to_ip_port size addr =
      check (leb inet_addrstrlen size)
      >> (let buf = ntop (take 4 (bytes_of h addr)) in
          let port = network_to_host h 2 addr.sin_port in
          (check (ltb (length buf) size)
            >> done (buf ++ take (size - length buf - 1) (b':' ∷ show port))))

-- `inet_pton` gives an address, unless the text is none; then the structure keeps its own.
unfoldable pub from_ip_port : Host → (List ℕ → Option ℕ) → List ℕ → ℕ → SockAddr → SockAddr
from_ip_port h pton ip port addr = record addr {
  sin_family = af_inet;
  sin_port = host_to_network h 2 port;
  s_addr = elim (pton ip) [ none ↦ addr.s_addr | some a ↦ a ];
}

-- `InetAddress`: an address of the network, and one of this host.
unfoldable pub of_text : Host → (List ℕ → Option ℕ) → List ℕ → ℕ → SockAddr
unfolding from_ip_port
of_text h pton ip_addr port = from_ip_port h pton ip_addr port zeroed

abbrev pub in_addr_loopback : ℕ
in_addr_loopback = 127 * 2 ^ 24 + 1

unfoldable pub of_port : Host → ℕ → Bool → SockAddr
of_port h port loopbackonly = record zeroed {
  sin_family = af_inet;
  sin_port = host_to_network h 2 port;
  s_addr = if loopbackonly then host_to_network h 4 in_addr_loopback else host_to_network h 4 0;
}

unfoldable pub to_port : Host → SockAddr → ℕ
to_port h a = network_to_host h 2 a.sin_port

-- `getsockopt` gives the error of the socket, or fails.
unfoldable pub get_socket_error : Option ℕ → ℕ → ℕ
get_socket_error none errno = errno
get_socket_error (some optval) errno = optval

-- `getsockname` and `getpeername` give an address, or fail.
abbrev pub name_of : Option SockAddr → SockAddr
name_of none = zeroed
name_of (some a) = a

unfoldable pub is_self_connect : Option SockAddr → Option SockAddr → Bool
is_self_connect local peer =
    (name_of local).s_addr == (name_of peer).s_addr
    && (name_of local).sin_port == (name_of peer).sin_port

-- `Socket::accept`: the descriptor, and the caller's address, which is set for a descriptor above 0.
unfoldable pub accept : Option ℕ → SockAddr → SockAddr → Option ℕ × SockAddr
accept none addr peeraddr = (none, peeraddr)
accept (some connfd) addr peeraddr = (some connfd, if ltb 0 connfd then addr else peeraddr)

-- `InetAddress`: from a `sockaddr_in`, its parts, and its texts in buffers of 32 characters.
abbrev pub of_sockaddr : SockAddr → SockAddr
of_sockaddr addr = addr

abbrev pub get_sock_addr_inet : SockAddr → SockAddr
get_sock_addr_inet a = a

abbrev pub set_sock_addr_inet : SockAddr → SockAddr → SockAddr
set_sock_addr_inet addr a = addr

unfoldable pub ip_net_endian : SockAddr → ℕ
ip_net_endian a = a.s_addr

unfoldable pub port_net_endian : SockAddr → ℕ
port_net_endian a = a.sin_port

unfoldable pub inet_to_ip : Host → (List ℕ → List ℕ) → SockAddr → Outcome (List ℕ)
inet_to_ip h ntop a = to_ip h ntop (λ n. []) 32 a

unfoldable pub inet_to_ip_port :
    Host → (List ℕ → List ℕ) → (ℕ → List ℕ) → SockAddr → Outcome (List ℕ)
inet_to_ip_port h ntop show a = to_ip_port h ntop show 32 a

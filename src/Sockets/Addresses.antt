-- ===== src/Sockets/Addresses.antt =====
-- MyNet/net/SocketsOps.cc and InetAddress.cc: ports and addresses there and back.
use my_net.Common.{
  ℕ, ◌^◌, ◌<◌, ◌≡◌, refl, ltb, true, ◌-◌, arith, Bool, Option, List, ◌≤◌, ◌∷◌, ◌++◌, length, take,
  take_all,
}
use my_net.Common.Outcome.{done}
use my_net.Endian.{network_to_host, Host, little, big, le_bytes, memory}
use my_net.Endian.Wire.{wire, network_to_host-host_to_network, memory-host_to_network}
use my_net.Sockets.{
  SockAddr, to_ip, to_ip_port, from_ip_port, of_text, of_port, to_port, bytes_of, inet_to_ip,
  inet_to_ip_port,
}

-- An address carries `port`: for the host, and in memory.
abbrev pub HasPort : Host → ℕ → SockAddr → Type 0
HasPort h port a = (to_port h a ≡ port) × (memory h 2 a.sin_port ≡ wire 2 port)

-- On every host, for every text of an address and every port below 2 ^ 16, both constructors of
-- `InetAddress` make an address whose `toPort` is the port, and whose port is in memory in the
-- order of the network.
pub to_port_lem :
    (h : Host) (pton : List ℕ → Option ℕ) (ip : List ℕ) (port : ℕ) (loopback : Bool)
    → port < 2 ^ 16
    → HasPort h port (of_text h pton ip port) × HasPort h port (of_port h port loopback)
unfolding to_port of_text from_ip_port of_port
to_port_lem h pton ip port loopback b =
    let back = network_to_host-host_to_network h 2 port (omega arith) in
    let bytes = memory-host_to_network h 2 port in ((back, bytes), (back, bytes))

-- On every host, the texts that `toIp` and `toIpPort` make of an address are the same for every
-- other address with that family and port.
pub to_ip-s_addr :
    (h : Host) (ntop : List ℕ → List ℕ) (show : ℕ → List ℕ) (size : ℕ) (a : SockAddr) (x : ℕ)
    → (to_ip h ntop show size (record a { s_addr = x }) ≡ to_ip h ntop show size a)
      × (to_ip_port h ntop show size (record a { s_addr = x }) ≡ to_ip_port h ntop show size a)
unfolding to_ip to_ip_port memory le_bytes
to_ip-s_addr little ntop show size a x = (refl, refl)
to_ip-s_addr big ntop show size a x = (refl, refl)

-- Buffers of 32 characters are enough for `toIp` and `toIpPort`: no assertion fails and no text is cut
-- off where the text of an address has at most 15 characters and that of a port at most 5.
pub inet_to_ip-inet_to_ip_port :
    (h : Host) (ntop : List ℕ → List ℕ) (show : ℕ → List ℕ) (a : SockAddr)
    → let ip = ntop (take 4 (bytes_of h a)) in
      let port = show (network_to_host h 2 a.sin_port) in
      length ip ≤ 15
      → length port ≤ 5
      → (inet_to_ip h ntop a ≡ done ip)
        × (inet_to_ip_port h ntop show a ≡ done (ip ++ (b':' ∷ port)))
unfolding inet_to_ip inet_to_ip_port to_ip to_ip_port
inet_to_ip-inet_to_ip_port h ntop show a k l =
    let ip = ntop (take 4 (bytes_of h a)) in
    let port = show (network_to_host h 2 a.sin_port) in
    let room : ltb (length ip) 32 ≡ true = ground arith in
    let all : take (32 - length ip - 1) (b':' ∷ port) ≡ b':' ∷ port =
      take_all (32 - length ip - 1) (b':' ∷ port) (omega arith) in
    (refl, rw (room, all) refl)

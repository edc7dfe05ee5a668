-- ===== src/Tests/Connections.antt =====
-- Examples for MyNet/net: SocketsOps.cc, InetAddress.cc and Acceptor.cc.
use my_net.Common.{ℕ, ◌≡◌, refl, true, false, none, some, List, [], ◌∷◌}
use my_net.Common.Outcome.{done}
use my_net.Endian.{little}
use my_net.Channel.{Call, init, set_read_callback}
use my_net.Sockets.{zeroed, accept, to_ip, to_ip_port}
use my_net.Sockets.Calls.{
  make_socket, create_non_blocking_or_die, bind_address, set_reuse_addr, set_reuse_port,
}
use my_net.Sockets.Addresses.{to_ip-s_addr}
use my_net.Acceptor.{
  Acceptor, Answers, emfile, new_acceptor, set_new_connection_callback, listen, handle_read,
  destroy,
}
use my_net.Acceptor.Descriptors.{
  Trace, made, sets, listens, reads, count, handed_fds, Trace-destroy,
}

-- The four bytes themselves in place of their text.
abbrev same : List ℕ → List ℕ
same bytes = bytes

to_ip-s_addr_example :
    (to_ip little same (λ n. n ∷ []) 32 (record zeroed { s_addr = 77 })
      ≡ to_ip little same (λ n. n ∷ []) 32 zeroed)
    × (to_ip_port little same (λ n. n ∷ []) 32 (record zeroed { s_addr = 77 })
        ≡ to_ip_port little same (λ n. n ∷ []) 32 zeroed)
to_ip-s_addr_example = to_ip-s_addr little same (λ n. n ∷ []) 32 zeroed 77

-- A connection that is handed over, and one for which there is no descriptor.
abbrev busy : Acceptor → Acceptor
busy a = handle_read none zeroed zeroed emfile (some 5) (some 6) (
    handle_read (some 8) zeroed zeroed emfile none none
      (listen true (set_new_connection_callback true a)).0)

abbrev answers : Answers
answers = record {
  socket = some 4;
  spare = some 5;
  reuse_addr = true;
  reuse_port = true;
  bound = true;
}

abbrev fresh : Acceptor
fresh = record {
  accept_socket = some 4;
  channel = set_read_callback true init;
  has_callback = false;
  listenning = false;
  idle_fd = some 5;
  descriptors = 5 ∷ 4 ∷ [];
  handed = [];
  requests = bind_address (some 4) zeroed true (
      set_reuse_port (some 4) false true
        (set_reuse_addr (some 4) true true ((make_socket, true) ∷ [])));
}

fresh-Trace : Trace fresh
unfolding new_acceptor create_non_blocking_or_die
fresh-Trace = made zeroed false answers refl

busy-Trace : Trace (busy fresh)
busy-Trace =
    reads none zeroed zeroed emfile (some 5) (some 6)
      (reads (some 8) zeroed zeroed emfile none none (listens true (sets true fresh-Trace)))

busy_handed : handed_fds (busy fresh).handed ≡ 8 ∷ []
unfolding handle_read listen set_new_connection_callback accept
busy_handed = refl

Trace-destroy_example :
    (r : Acceptor × List Call) × (destroy true (busy fresh) ≡ done r)
    × ((n : ℕ) → count n r.0.descriptors ≡ count n (handed_fds (busy fresh).handed))
Trace-destroy_example = Trace-destroy true busy-Trace

-- ===== src/Acceptor/Descriptors.antt =====
-- MyNet/net/Acceptor.cc: whatever the system answers, no descriptor is lost.
use my_net.Common.{
  ℕ, ◌+◌, ◌-◌, ◌≡◌, inl, inr, refl, subst, arith, ◌==◌, if◌then◌else◌, Bool, false, Bool-cases,
  Option, none, some, List, [], ◌∷◌, ◌++◌,
}
use my_net.Common.Outcome.{done, done_inj}
use my_net.Channel.{
  Channel, Call, remove_channel, none_event, set_read_callback, enable_reading, update, disable_all,
  remove,
}
use my_net.Sockets.{SockAddr, accept}
use my_net.Sockets.Calls.{create_non_blocking_or_die}
use my_net.Acceptor.{
  Answers, Acceptor, Errno, eagain, econnaborted, eintr, eproto, eperm, emfile, other, new_acceptor,
  removed, close, opened, set_new_connection_callback, listen, hand_over, refuse, after_accept,
  handle_read, destroy,
}

-- How often a descriptor is in a table.
abbrev pub count : ℕ → List ℕ → ℕ
count n [] = 0
count n (x ∷ xs) = (if x == n then 1 else 0) + count n xs

abbrev pub handed_fds : List (ℕ × SockAddr) → List ℕ
handed_fds [] = []
handed_fds ((fd, peer) ∷ rest) = fd ∷ handed_fds rest

-- What is open is the listening socket, the spare descriptor, if there is one, and what was handed over; the
-- channel is not in a call.
pub record IsBalanced (a : Acceptor) : Type 0 where
  pub same_open :
      (n : ℕ)
      → count n a.descriptors
        ≡ count n (opened a.idle_fd (opened a.accept_socket (handed_fds a.handed)))
  pub at_rest : a.channel.event_handling ≡ false

-- The share of one descriptor.
abbrev one : Option ℕ → ℕ → ℕ
one none n = 0
one (some fd) n = if fd == n then 1 else 0

count-removed : (n fd : ℕ) (xs : List ℕ) → count n (removed fd xs) ≡ count n xs - one (some fd) n
count-removed n fd [] = omega arith
count-removed n fd (x ∷ xs) =
    let rest = count-removed n fd xs in
    elim (Bool-cases (x == fd)) [
      | inl e ↦ rw e (ground arith)
      | inr e ↦ rw e (ground (arith, rest))
    ]

count-close : (n : ℕ) (o : Option ℕ) (xs : List ℕ) → count n (close o xs) ≡ count n xs - one o n
count-close n none xs = omega arith
count-close n (some fd) xs = count-removed n fd xs

count-opened : (n : ℕ) (o : Option ℕ) (xs : List ℕ) → count n (opened o xs) ≡ one o n + count n xs
count-opened n none xs = omega arith
count-opened n (some fd) xs = refl

pub data Trace : Acceptor → Type 0 where
  made :
      {a : Acceptor} (listen_addr : SockAddr) (reuseport : Bool) (answers : Answers)
      → new_acceptor listen_addr reuseport answers ≡ done a
      → Trace a
  sets : {a : Acceptor} (cb : Bool) → Trace a → Trace (set_new_connection_callback cb a)
  listens : {a : Acceptor} (ok : Bool) → Trace a → Trace (listen ok a).0
  reads :
      {a : Acceptor} (accepted : Option ℕ) (addr peer : SockAddr) (errno : Errno)
      (again spare : Option ℕ)
      → Trace a
      → Trace (handle_read accepted addr peer errno again spare a)

-- The share of what is kept and of what was handed over.
share :
    (n : ℕ) (idle socket : Option ℕ) (xs : List ℕ)
    → count n (opened idle (opened socket xs)) ≡ one idle n + (one socket n + count n xs)
share n idle socket xs =
    let outer = count-opened n idle (opened socket xs) in
    let inner = count-opened n socket xs in omega arith

hand_over-IsBalanced :
    (connfd : ℕ) (peer : SockAddr) (a : Acceptor)
    → IsBalanced a
    → IsBalanced (hand_over connfd peer (record a { descriptors = connfd ∷ a.descriptors }))
hand_over-IsBalanced connfd peer a b = elim (Bool-cases a.has_callback) [
  | inl e ↦ rw e (record {
    same_open = λ n.
        let idle = share n a.idle_fd a.accept_socket (handed_fds a.handed) in
        let idle' = share n a.idle_fd a.accept_socket (connfd ∷ handed_fds a.handed) in
        let before = b.same_open n in omega arith;
    at_rest = b.at_rest;
  })
  | inr e ↦ rw e (record {
    same_open = λ n.
        let gone = count-removed n connfd (connfd ∷ a.descriptors) in
        let before = b.same_open n in omega arith;
    at_rest = b.at_rest;
  })
]

refuse-IsBalanced :
    (again spare : Option ℕ) (a : Acceptor) → IsBalanced a → IsBalanced (refuse again spare a)
refuse-IsBalanced again spare a b = record {
  same_open = λ n.
      let given = close a.idle_fd a.descriptors in
      let first = count-close n a.idle_fd a.descriptors in
      let second = count-opened n again given in
      let third = count-close n again (opened again given) in
      let last = count-opened n spare (close again (opened again given)) in
      let idle = share n a.idle_fd a.accept_socket (handed_fds a.handed) in
      let result = share n spare a.accept_socket (handed_fds a.handed) in
      let before = b.same_open n in omega arith;
  at_rest = b.at_rest;
}

after_accept-IsBalanced :
    (errno : Errno) (again spare : Option ℕ) (got : Option ℕ × SockAddr) (a : Acceptor)
    → IsBalanced a
    → IsBalanced (after_accept errno again spare got a)
after_accept-IsBalanced errno again spare (some connfd, peer) a b =
    hand_over-IsBalanced connfd peer a b
after_accept-IsBalanced emfile again spare (none, peer) a b = refuse-IsBalanced again spare a b
after_accept-IsBalanced eagain again spare (none, peer) a b = b
after_accept-IsBalanced econnaborted again spare (none, peer) a b = b
after_accept-IsBalanced eintr again spare (none, peer) a b = b
after_accept-IsBalanced eproto again spare (none, peer) a b = b
after_accept-IsBalanced eperm again spare (none, peer) a b = b
after_accept-IsBalanced other again spare (none, peer) a b = b

new_acceptor-IsBalanced :
    (listen_addr : SockAddr) (reuseport : Bool) (o p : Option ℕ) (x y z : Bool) (a : Acceptor)
    → new_acceptor listen_addr reuseport
        (record { socket = o; spare = p; reuse_addr = x; reuse_port = y; bound = z })
      ≡ done a
    → IsBalanced a
unfolding new_acceptor create_non_blocking_or_die set_read_callback
new_acceptor-IsBalanced addr reuseport o none x y z a e = absurd cc
new_acceptor-IsBalanced addr reuseport none (some fd) x y z a e =
    subst IsBalanced (done_inj refl e) (record { same_open = λ n. refl; at_rest = refl })
new_acceptor-IsBalanced addr reuseport (some s) (some fd) x y z a e =
    subst IsBalanced (done_inj refl e) (record { same_open = λ n. refl; at_rest = refl })

Trace-IsBalanced : {a : Acceptor} → Trace a → IsBalanced a
unfolding set_new_connection_callback listen handle_read enable_reading update
Trace-IsBalanced (made {a} addr reuseport w e) =
    new_acceptor-IsBalanced addr reuseport w.socket w.spare w.reuse_addr w.reuse_port w.bound a e
Trace-IsBalanced (sets cb t) =
    let b = Trace-IsBalanced t in record { same_open = b.same_open; at_rest = b.at_rest }
Trace-IsBalanced (listens ok t) =
    let b = Trace-IsBalanced t in record { same_open = b.same_open; at_rest = b.at_rest }
Trace-IsBalanced (reads {a} accepted addr peer errno again spare t) =
    after_accept-IsBalanced errno again spare (accept accepted addr peer) a (Trace-IsBalanced t)

-- In every run of an acceptor whose constructor does not fail, whatever the calls of the system
-- answer, its destructor ends, the assertions of its channel's destructor included, and of the
-- descriptors that it had open, the listening socket and the spare one among them, those that
-- are open after it are those of the connections that it has handed to its callback, each as
-- often.
pub Trace-destroy :
    {a : Acceptor} (ok : Bool)
    → Trace a
    → (r : Acceptor × List Call) × (destroy ok a ≡ done r)
      × ((n : ℕ) → count n r.0.descriptors ≡ count n (handed_fds a.handed))
unfolding destroy disable_all remove update my_net.Channel.destroy
Trace-destroy {a} ok t =
    let b = Trace-IsBalanced t in
    (
      (
        record a {
          channel = record a.channel { events = none_event; added_to_loop = false };
          descriptors = close a.accept_socket (close a.idle_fd a.descriptors);
          requests = my_net.Sockets.Calls.destroy a.accept_socket ok a.requests;
        },
        (disable_all a.channel).1 ++ (remove_channel ∷ []),
      ),
      rw b.at_rest refl,
      λ n.
          let first = count-close n a.idle_fd a.descriptors in
          let second = count-close n a.accept_socket (close a.idle_fd a.descriptors) in
          let idle = share n a.idle_fd a.accept_socket (handed_fds a.handed) in
          let before = b.same_open n in omega arith,
    )

-- ===== src/Channel/Dispatch.antt =====
-- MyNet/net/Channel.cc: which callbacks an event calls.
use my_net.Common.{
  Bool, true, false, not, ◌&&◌, ◌||◌, ◌≡◌, ◌↔◌, ◌⊎◌, inl, inr, Bool-cases, List, [], ◌∷◌, ◌++◌,
  arith,
}
use my_net.Channel.{
  Channel, Call, close_callback, error_callback, read_callback, write_callback, handle_event,
  call_if,
}

-- `k` is among the calls.
abbrev pub Calls : Call → List Call → Type 0
Calls k [] = ⊥
Calls k (x ∷ xs) = (x ≡ k) ⊎ Calls k xs

-- The event handling ran: the channel is not tied, or its owner is alive.
abbrev pub Runs : Bool → Channel → Type 0
Runs owner c = (c.tied ≡ false) ⊎ (owner ≡ true)

abbrev calls_of : Bool → Bool → Bool → Bool → List Call
calls_of a b c d =
    call_if a close_callback
    ++ (call_if b error_callback ++ (call_if c read_callback ++ call_if d write_callback))

calls_of_lem :
    (a b c d : Bool)
    → (Calls close_callback (calls_of a b c d) ↔ (a ≡ true))
      × (Calls error_callback (calls_of a b c d) ↔ (b ≡ true))
      × (Calls read_callback (calls_of a b c d) ↔ (c ≡ true))
      × (Calls write_callback (calls_of a b c d) ↔ (d ≡ true))
calls_of_lem a b c d = ground arith

handle_event-Runs :
    (owner : Bool) (c : Channel)
    → Runs owner c
    → let r = c.revents in
      (handle_event owner c).0
      ≡ calls_of
          (r.pollhup && not r.pollin && c.has_close)
          ((r.pollerr || r.pollnval) && c.has_error)
          ((r.pollin || r.pollpri || r.pollrdhup) && c.has_read)
          (r.pollout && c.has_write)
unfolding handle_event
handle_event-Runs owner c (inl h) = rw h
handle_event-Runs owner c (inr h) = elim (Bool-cases c.tied) [ inl e ↦ rw (e, h) | inr e ↦ rw e ]

iff_trans : {P Q R : Type 0} → P ↔ Q → Q ↔ R → P ↔ R
iff_trans p q = (λ x. q.0 (p.0 x), λ y. p.1 (q.1 y))

close_asked : (a b h : Bool) → ((a && not b && h) ≡ true) ↔ ((a ≡ true) × (b ≡ false) × (h ≡ true))
close_asked a b h = ground arith

error_asked : (a b h : Bool) → (((a || b) && h) ≡ true) ↔ (((a ≡ true) ⊎ (b ≡ true)) × (h ≡ true))
error_asked a b h = ground arith

read_asked :
    (a b c h : Bool)
    → (((a || b || c) && h) ≡ true) ↔ (((a ≡ true) ⊎ ((b ≡ true) ⊎ (c ≡ true))) × (h ≡ true))
read_asked a b c h = ground arith

write_asked : (a h : Bool) → ((a && h) ≡ true) ↔ ((a ≡ true) × (h ≡ true))
write_asked a h = ground arith

-- If the channel is not tied or its owner is alive, `handleEvent` calls each callback exactly
-- when it is set and an event asks for it: the close callback for POLLHUP without POLLIN, the
-- error callback for POLLERR or POLLNVAL, the read callback for POLLIN, POLLPRI or POLLRDHUP,
-- the write callback for POLLOUT.
pub handle_event-calls :
    (owner : Bool) (c : Channel)
    → Runs owner c
    → let calls = (handle_event owner c).0 in
      let r = c.revents in
      (Calls close_callback calls
        ↔ ((r.pollhup ≡ true) × (r.pollin ≡ false) × (c.has_close ≡ true)))
      × (Calls error_callback calls
          ↔ (((r.pollerr ≡ true) ⊎ (r.pollnval ≡ true)) × (c.has_error ≡ true)))
      × (Calls read_callback calls ↔ (
          ((r.pollin ≡ true) ⊎ ((r.pollpri ≡ true) ⊎ (r.pollrdhup ≡ true))) × (c.has_read ≡ true)))
      × (Calls write_callback calls ↔ ((r.pollout ≡ true) × (c.has_write ≡ true)))
unfolding handle_event
handle_event-calls owner c h =
    let r = c.revents in
    let (p, q, u, w) =
      calls_of_lem (r.pollhup && not r.pollin && c.has_close)
        ((r.pollerr || r.pollnval) && c.has_error)
        ((r.pollin || r.pollpri || r.pollrdhup) && c.has_read) (r.pollout && c.has_write) in
    rw (handle_event-Runs owner c h) (
      iff_trans p (close_asked r.pollhup r.pollin c.has_close),
      iff_trans q (error_asked r.pollerr r.pollnval c.has_error),
      iff_trans u (read_asked r.pollin r.pollpri r.pollrdhup c.has_read),
      iff_trans w (write_asked r.pollout c.has_write),
    )

-- A tied channel whose owner is gone calls nothing and stays as it is.
pub handle_event-gone : (c : Channel) → c.tied ≡ true → handle_event false c ≡ ([], c)
unfolding handle_event
handle_event-gone c h = ground arith

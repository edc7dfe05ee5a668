-- ===== src/Tests/Channels.antt =====
-- Examples for MyNet/net/Channel.h and Channel.cc.
use my_net.Common.{◌≡◌, ◌↔◌, ◌⊎◌, inl, refl, true, false}
use my_net.Channel.{
  Channel, init, none_event, read_event, read_callback, write_callback, close_callback,
  error_callback, is_writing, is_none_event, disable_reading, disable_writing, handle_event,
}
use my_net.Channel.Dispatch.{Calls, handle_event-calls}
use my_net.Channel.Interest.{disable_keeps}

-- A channel that reads, with a hang-up to be told of.
abbrev reader : Channel
reader = record init {
  events = read_event;
  revents = record none_event { pollhup = true };
  has_read = true;
  has_close = true;
}

handle_event_example :
    let calls = (handle_event false reader).0 in
    (Calls close_callback calls ↔ ((true ≡ true) × (false ≡ false) × (true ≡ true)))
    × (Calls error_callback calls ↔ (((false ≡ true) ⊎ (false ≡ true)) × (false ≡ true)))
    × (Calls read_callback calls
        ↔ (((false ≡ true) ⊎ ((false ≡ true) ⊎ (false ≡ true))) × (true ≡ true)))
    × (Calls write_callback calls ↔ ((false ≡ true) × (false ≡ true)))
handle_event_example = handle_event-calls false reader (inl refl)

disable_keeps_example :
    let r = (disable_reading reader).0 in
    let w = (disable_writing reader).0 in
    ((r.events.pollin ≡ true)
      × (r.events.pollpri ≡ true)
      × (is_writing r ≡ true)
      × (is_none_event r ≡ false))
    × ((is_writing w ≡ is_writing reader)
        × (w.events.pollin ≡ true)
        × (w.events.pollpri ≡ true)
        × (is_none_event w ≡ false))
disable_keeps_example = disable_keeps reader

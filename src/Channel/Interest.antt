-- ===== src/Channel/Interest.antt =====
-- MyNet/net/Channel.h: which events a channel asks the loop for.
use my_net.Common.{true, false, ◌≡◌, refl, [], ◌∷◌, arith}
use my_net.Common.Outcome.{done, fault, assertion}
use my_net.Channel.{
  Channel, update_channel, remove_channel, none_event, is_none_event, is_writing, enable_reading,
  disable_reading, enable_writing, disable_writing, disable_all, remove, destroy,
}

-- `enableReading` sets both reading bits, keeps the writing bit and tells the loop the new mask;
-- `enableWriting` sets the writing bit and keeps POLLIN; and the two can be called in either
-- order.
pub enable_lem :
    (c : Channel)
    → ((enable_reading c).0.events.pollin ≡ true)
      × ((enable_reading c).0.events.pollpri ≡ true)
      × (is_writing (enable_reading c).0 ≡ is_writing c)
      × (is_writing (enable_writing c).0 ≡ true)
      × ((enable_writing c).0.events.pollin ≡ c.events.pollin)
      × ((enable_reading c).1 ≡ update_channel (enable_reading c).0.events ∷ [])
      × ((enable_writing (enable_reading c).0).0 ≡ (enable_reading (enable_writing c).0).0)
unfolding enable_reading enable_writing is_writing
enable_lem c = ground arith

-- `disableReading` does not disable reading: both reading bits stay as they are, the writing bit
-- is set, and the channel asks for some event.
disable_reading_keeps :
    (c : Channel)
    → let d = (disable_reading c).0 in
      (d.events.pollin ≡ c.events.pollin)
      × (d.events.pollpri ≡ c.events.pollpri)
      × (is_writing d ≡ true)
      × (is_none_event d ≡ false)
unfolding disable_reading is_writing is_none_event
disable_reading_keeps c = ground arith

-- `disableWriting` does not disable writing: the writing bit stays as it is, both reading bits
-- are set, and the channel asks for some event.
disable_writing_keeps :
    (c : Channel)
    → let d = (disable_writing c).0 in
      (is_writing d ≡ is_writing c)
      × (d.events.pollin ≡ true)
      × (d.events.pollpri ≡ true)
      × (is_none_event d ≡ false)
unfolding disable_writing is_writing is_none_event
disable_writing_keeps c = ground arith

-- `disableReading` leaves both reading bits as they are and sets the writing bit,
-- `disableWriting` leaves the writing bit as it is and sets both reading bits, and after either
-- the channel asks for some event.
pub disable_keeps :
    (c : Channel)
    → let r = (disable_reading c).0 in
      let w = (disable_writing c).0 in
      ((r.events.pollin ≡ c.events.pollin)
        × (r.events.pollpri ≡ c.events.pollpri)
        × (is_writing r ≡ true)
        × (is_none_event r ≡ false))
      × ((is_writing w ≡ is_writing c)
          × (w.events.pollin ≡ true)
          × (w.events.pollpri ≡ true)
          × (is_none_event w ≡ false))
disable_keeps c = (disable_reading_keeps c, disable_writing_keeps c)

-- While the channel is not handling an event, `remove` after `disableAll` succeeds with one call
-- of the loop, and then the destructor's assertions on the channel hold.
pub remove-disable_all :
    (c : Channel)
    → c.event_handling ≡ false
    → (d : Channel) × (remove (disable_all c).0 ≡ done (d, remove_channel ∷ []))
      × (destroy d ≡ done tt)
unfolding remove disable_all destroy is_none_event
remove-disable_all c h =
    (record c { events = none_event; added_to_loop = false }, refl, ground arith)

pub remove-fault : (c : Channel) → is_none_event c ≡ false → remove c ≡ fault assertion
unfolding remove is_none_event
remove-fault c h = ground arith

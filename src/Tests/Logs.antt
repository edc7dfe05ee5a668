-- ===== src/Tests/Logs.antt =====
-- Examples for MyNet/base/AsyncLogging.cc.
use my_net.Common.{ℕ, ◌≡◌, ◌≤◌, ◌<◌, ◌⊎◌, refl, none, some, [], ◌∷◌, ◌++◌, length}
use my_net.Common.Outcome.{done, fault, null_pointer}
use my_net.Condition.{fresh, notify}
use my_net.LogStream.{FixedBuffer, avail, bzero, append as append_line}
use my_net.AsyncLogging.{
  Front, Back, init, init_back, append, append_to, append_full, exchange, write_out, texts, kept,
  Trace, start, appends,
}
use my_net.AsyncLogging.Lines.{pending, Trace-conserved, Trace-progress, Trace-append}
use my_net.AsyncLogging.Shapes.{Taken}

-- Buffers of two characters: after a line of two characters there is no next buffer, and the next
-- line is written through a pointer without a buffer.
abbrev no_next : Front
no_next = record {
  cur = some (record { chars = b'a' ∷ b'a' ∷ []; cur = 2 });
  next = none;
  buffs = record { chars = 0 ∷ 0 ∷ []; cur = 0 } ∷ [];
  cond = fresh;
}

abbrev no_next_run : Trace 2 [] no_next (init_back 2) (b'a' ∷ b'a' ∷ []) []
unfolding init bzero append append_to append_full append_line notify
no_next_run = appends (b'a' ∷ b'a' ∷ []) no_next start refl

no_next-fault : append (b'b' ∷ []) no_next ≡ fault null_pointer
unfolding append append_to append_full
no_next-fault = refl

Trace-conserved_example : b'a' ∷ b'a' ∷ [] ≡ [] ++ (texts (init_back 2).to_write ++ pending no_next)
Trace-conserved_example = Trace-conserved no_next_run

Trace-progress_example :
    (length (init_back 2).to_write ≡ 0)
      × ((s' : Front) × (k' : Back) × (exchange no_next (init_back 2) ≡ done (s', k'))
          × (pending s' ≡ [])
          × (texts k'.to_write ≡ pending no_next)
          × (0 < length k'.to_write))
    ⊎ (0 < length (init_back 2).to_write)
      × ((k' : Back) × (write_out [] (init_back 2) ≡ done (texts (init_back 2).to_write, k'))
          × (k'.to_write ≡ []))
Trace-progress_example = Trace-progress no_next_run

Trace-append_example :
    (b : FixedBuffer) × (no_next.cur ≡ some b)
    × (((s' : Front) × (append (b'b' ∷ []) no_next ≡ done s')
          × Taken (b'b' ∷ []) b no_next s'
          × (pending s' ≡ pending no_next ++ kept 2 (b'b' ∷ [])))
        ⊎ ((avail b ≤ length {A = ℕ} (b'b' ∷ []))
            × (no_next.next ≡ none)
            × (append (b'b' ∷ []) no_next ≡ fault null_pointer)))
Trace-append_example = Trace-append no_next_run (b'b' ∷ [])

-- ===== src/Tests/Messages.antt =====
-- Examples for MyNet/base/Logging.cc and .h.
use my_net.Common.{ℕ, ◌≡◌, ◌==◌, refl, arith, none, List, [], ◌∷◌, replicate, inl}
use my_net.Common.Int.{ℤ, pos}
use my_net.Common.Outcome.{done}
use my_net.LogStream.{Item, text, integer}
use my_net.Timestamp.{now}
use my_net.ThreadOp.{init}
use my_net.ThreadOp.Cached.{Run, starts}
use my_net.TimeZone.{valid}
use my_net.Logging.{System, Locals, info, number, fatal, log_line, of_literal, of_pointer}
use my_net.Logging.Lines.{text_of_items, line_items, IsFormatted, IsFresh}
use my_net.Logging.Output.{log_line_lem}

abbrev system : System
system = record {
  utc_text = λ s. replicate 17 b'0';
  local_text = λ s. replicate 17 b'0';
  six = λ u. replicate 6 b'0';
  five = λ n. b' ' ∷ b' ' ∷ b' ' ∷ b'4' ∷ b'2' ∷ b' ' ∷ [];
  strerror = λ e. [];
  gettid = 42;
}

system-IsFormatted : IsFormatted system none
unfolding valid
system-IsFormatted = record { seconds_width = λ s. refl; six_width = λ u h. refl }

-- A thread that has not logged anything.
abbrev locals : Locals
locals = record { time = []; last_second = pos 0; thread = init }

abbrev path : List ℕ
path = b's' ∷ b'/' ∷ b'n' ∷ b'/' ∷ b'f' ∷ b'.' ∷ b'c' ∷ []

literal_path : of_literal path ≡ b'f' ∷ b'.' ∷ b'c' ∷ []
unfolding of_literal
literal_path = refl

-- A pointer keeps the directories but for the first one.
pointer_path : of_pointer path ≡ b'n' ∷ b'/' ∷ b'f' ∷ b'.' ∷ b'c' ∷ []
unfolding of_pointer
pointer_path = refl

abbrev said : List Item
said = text (b'h' ∷ b'i' ∷ []) ∷ integer (pos 7) ∷ []

log_line_example :
    (l' : Locals) × (log_line system none (now (pos 1000) (pos 5)) info 0 path (pos 12) said locals
      ≡ done (
        l',
        (
          text_of_items (line_items system none 1000 5 info 0 path (pos 12) said),
          number info == number fatal,
        ),
      ))
    × ((t : ℤ) → IsFresh system none t l')
    × Run system.five system.gettid l'.thread
unfolding valid
log_line_example =
    log_line_lem system none 1000 5 info 0 path (pos 12) said locals system-IsFormatted
      (omega arith) (starts 42 (omega arith)) (inl refl)
      (tt, (tt, (tt, (tt, (tt, (omega arith, (tt, (tt, (tt, (omega arith, (tt, tt)))))))))))
      (omega arith)

-- ===== src/Channel/Text.antt =====
-- MyNet/net/Channel.cc: the text that `reventsToString` makes of the events of a channel.
use my_net.Common.{
  ℕ, ◌==◌, ◌≡◌, refl, sym, ap, ◌∙◌, Bool, true, false, if◌then◌else◌, List, [], ◌∷◌, ◌++◌, length,
  drop, drop-append, arith,
}
use my_net.Channel.{Mask, Channel, none_event}

-- `if (flag) oss << word` for each flag, in order; a word is its first character and the others.
pub record Word : Type 0 where
  pub head : ℕ
  pub tail : List ℕ

abbrev pub write_flags : List (Bool × Word) → List ℕ
write_flags [] = []
write_flags ((true, w) ∷ rest) = w.head ∷ (w.tail ++ write_flags rest)
write_flags ((false, w) ∷ rest) = write_flags rest

abbrev word_in : Word
word_in = record { head = b'I'; tail = b'N' ∷ b' ' ∷ [] }

abbrev word_pri : Word
word_pri = record { head = b'P'; tail = b'R' ∷ b'I' ∷ b' ' ∷ [] }

abbrev word_out : Word
word_out = record { head = b'O'; tail = b'U' ∷ b'T' ∷ b' ' ∷ [] }

abbrev word_hup : Word
word_hup = record { head = b'H'; tail = b'U' ∷ b'P' ∷ b' ' ∷ [] }

abbrev word_rdhup : Word
word_rdhup = record { head = b'R'; tail = b'D' ∷ b'H' ∷ b'U' ∷ b'P' ∷ b' ' ∷ [] }

abbrev word_err : Word
word_err = record { head = b'E'; tail = b'R' ∷ b'R' ∷ b' ' ∷ [] }

abbrev word_nval : Word
word_nval = record { head = b'N'; tail = b'V' ∷ b'A' ∷ b'L' ∷ b' ' ∷ [] }

abbrev pub flags_of : Mask → List (Bool × Word)
flags_of m =
    (m.pollin, word_in)
    ∷ (m.pollpri, word_pri)
    ∷ (m.pollout, word_out)
    ∷ (m.pollhup, word_hup)
    ∷ (m.pollrdhup, word_rdhup)
    ∷ (m.pollerr, word_err)
    ∷ (m.pollnval, word_nval)
    ∷ []

-- `fd` is what `<<` makes of the descriptor.
unfoldable pub revents_to_string : List ℕ → Channel → List ℕ
revents_to_string fd c = fd ++ (b':' ∷ b' ' ∷ write_flags (flags_of c.revents))

-- The flags that a text has been made of: a word stands at its front, or not.
abbrev read_flags : List Word → List ℕ → List Bool
read_flags [] text = []
read_flags (w ∷ ws) [] = false ∷ read_flags ws []
read_flags (w ∷ ws) (c ∷ cs) =
    if c == w.head
    then true ∷ read_flags ws (drop (length w.tail) cs)
    else false ∷ read_flags ws (c ∷ cs)

abbrev words_of : List (Bool × Word) → List Word
words_of [] = []
words_of ((b, w) ∷ rest) = w ∷ words_of rest

abbrev bits_of : List (Bool × Word) → List Bool
bits_of [] = []
bits_of ((b, w) ∷ rest) = b ∷ bits_of rest

-- No two words begin alike.
abbrev NoneBegins : ℕ → List Word → Type 0
NoneBegins c [] = Unit {0}
NoneBegins c (w ∷ ws) = ((w.head == c) ≡ false) × NoneBegins c ws

abbrev AllDiffer : List Word → Type 0
AllDiffer [] = Unit {0}
AllDiffer (w ∷ ws) = NoneBegins w.head ws × AllDiffer ws

passed_over :
    (w : Word) (ws : List Word) (fs : List (Bool × Word))
    → NoneBegins w.head (words_of fs)
    → read_flags (w ∷ ws) (write_flags fs) ≡ false ∷ read_flags ws (write_flags fs)
passed_over w ws [] h = refl
passed_over w ws ((true, v) ∷ fs) h = rw h.0 refl
passed_over w ws ((false, v) ∷ fs) h = passed_over w ws fs h.1

read_flags-write_flags :
    (fs : List (Bool × Word))
    → AllDiffer (words_of fs)
    → read_flags (words_of fs) (write_flags fs) ≡ bits_of fs
read_flags-write_flags [] h = refl
read_flags-write_flags ((true, w) ∷ fs) h =
    let same : (w.head == w.head) ≡ true = ground arith in
    rw (same, drop-append w.tail (write_flags fs))
      (ap (λ (t : List Bool). true ∷ t) (read_flags-write_flags fs h.1))
read_flags-write_flags ((false, w) ∷ fs) h =
    passed_over w (words_of fs) fs h.0
    ∙ ap (λ (t : List Bool). false ∷ t) (read_flags-write_flags fs h.1)

flags-AllDiffer : AllDiffer (words_of (flags_of none_event))
flags-AllDiffer = (
  (refl, (refl, (refl, (refl, (refl, (refl, tt)))))),
  (
    (refl, (refl, (refl, (refl, (refl, tt))))),
    (
      (refl, (refl, (refl, (refl, tt)))),
      ((refl, (refl, (refl, tt))), ((refl, (refl, tt)), ((refl, tt), (tt, tt)))),
    ),
  ),
)

-- The named events of a mask.
abbrev pub named : Mask → List Bool
named m = bits_of (flags_of m)

-- Two channels whose texts for one descriptor are equal received the same named events.
pub revents_to_string-named :
    (fd : List ℕ) (c d : Channel)
    → revents_to_string fd c ≡ revents_to_string fd d
    → named c.revents ≡ named d.revents
unfolding revents_to_string
revents_to_string-named fd c d e =
    let rest : (b':' ∷ b' ' ∷ write_flags (flags_of c.revents))
        ≡ (b':' ∷ b' ' ∷ write_flags (flags_of d.revents)) =
      sym (drop-append fd _) ∙ ap (drop (length fd)) e ∙ drop-append fd _ in
    sym (read_flags-write_flags (flags_of c.revents) flags-AllDiffer)
    ∙ ap (λ (t : List ℕ). read_flags (words_of (flags_of none_event)) (drop 2 t)) rest
    ∙ read_flags-write_flags (flags_of d.revents) flags-AllDiffer

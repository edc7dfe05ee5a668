-- ===== src/Logging/Lines.antt =====
-- MyNet/base/Logging.cc: the text of a line that fits, and the time that a thread keeps for it.
use my_net.Common.{
  ℕ, ◌+◌, ◌≤◌, ◌<◌, ◌^◌, ◌≡◌, ◌⊎◌, inl, inr, refl, sym, ap, ◌∙◌, arith, true, false, Bool-cases,
  List, [], ◌∷◌, ◌++◌, length, append_assoc, append-nil,
}
use my_net.Common.Int.{ℤ, pos, negsuc, eqb_ℤ}
use my_net.Common.Outcome.{done}
use my_net.LogStream.{FixedBuffer, Item, text, truth, char, integer, pointer, put, as_string, avail}
use my_net.LogStream.Decimal.{length-convert}
use my_net.LogStream.Hexadecimal.{length-convert_hex}
use my_net.LogStream.Writes.{IsValid, Is64Bit, needed, text_of, put-AllOrNothing}
use my_net.TimeZone.{Zone}
use my_net.Logging.{
  System, Locals, LogLevel, log_level_name, second_text, fraction_text, cache_second, error_items,
  put_all,
}

-- The text of things in a row, the room they ask for, and that their numbers fit.
abbrev pub text_of_items : List Item → List ℕ
text_of_items [] = []
text_of_items (item ∷ items) = text_of item ++ text_of_items items

abbrev pub room : List Item → ℕ
room [] = 0
room (item ∷ items) = needed item + room items

abbrev pub Are64Bit : List Item → Type 0
Are64Bit [] = Unit {0}
Are64Bit (item ∷ items) = Is64Bit item × Are64Bit items

-- `b'` is `b` with a text behind it that took no more than `n` of the room.
pub record Adds (n : ℕ) (line : List ℕ) (b b' : FixedBuffer) : Type 0 where
  pub is_valid : IsValid b'
  pub added : as_string b' ≡ as_string b ++ line
  pub left : avail b ≤ avail b' + n

needed-length : (item : Item) → Is64Bit item → length (text_of item) ≤ needed item
needed-length (text line) h = omega arith
needed-length (truth v) h = omega arith
needed-length (char c) h = omega arith
needed-length (integer v) h = omega (arith, length-convert 19 v (omega arith))
needed-length (pointer p) h = omega (arith, length-convert_hex 15 p (omega arith))

put-Adds :
    (item : Item) (b : FixedBuffer)
    → Is64Bit item
    → IsValid b
    → needed item ≤ avail b
    → Adds (needed item) (text_of item) b (put item b)
put-Adds item b h v r = elim (put-AllOrNothing item b h v) [
  | inl (_, x) ↦ record {
    is_valid = x.valid;
    added = x.line_added;
    left = (let taken = x.taken in let size = needed-length item h in omega arith);
  }
  | inr (k, _) ↦ absurd (omega arith)
]

pub put_all-Adds :
    (items : List Item) (b : FixedBuffer)
    → Are64Bit items
    → IsValid b
    → room items ≤ avail b
    → Adds (room items) (text_of_items items) b (put_all items b)
put_all-Adds [] b h v r = record {
  is_valid = v;
  added = sym (append-nil (as_string b));
  left = omega arith;
}
put_all-Adds (item ∷ items) b h v r =
    let x = put-Adds item b h.0 v (omega arith) in
    let bound = x.left in
    let y = put_all-Adds items (put item b) h.1 x.is_valid (omega arith) in
    let bound' = y.left in
    record {
      is_valid = y.is_valid;
      added =
          y.added
          ∙ ap (λ (t : List ℕ). t ++ text_of_items items) x.added
          ∙ append_assoc (as_string b) (text_of item) (text_of_items items);
      left = omega arith;
    }

pub put_all-append :
    (xs ys : List Item) (b : FixedBuffer) → put_all (xs ++ ys) b ≡ put_all ys (put_all xs b)
put_all-append [] ys b = refl
put_all-append (x ∷ xs) ys b = put_all-append xs ys (put x b)

-- What a line is made of, from the left to the right.
abbrev pub end_items : List ℕ → ℤ → List Item
end_items file line =
    text (b'-' ∷ []) ∷ text file ∷ text (b':' ∷ []) ∷ integer line ∷ text (10 ∷ []) ∷ []

abbrev pub line_items : System → Zone → ℕ → ℕ → LogLevel → ℕ → List ℕ → ℤ → List Item → List Item
line_items sys tz s u level saved_errno file line items =
    text (second_text sys tz (pos s))
    ∷ text (fraction_text sys tz (pos u))
    ∷ text (sys.five sys.gettid)
    ∷ text (log_level_name level)
    ∷ (error_items sys saved_errno ++ (items ++ end_items file line))

-- The formats are as wide as the code says.
pub record IsFormatted (sys : System) (tz : Zone) : Type 0 where
  pub seconds_width : (s : ℕ) → length (second_text sys tz (pos s)) ≡ 17
  pub six_width : (u : ℕ) → u < 10 ^ 6 → length (sys.six (pos u)) ≡ 6

-- The time that is kept is that of the last second, or the second is another one.
abbrev pub IsFresh : System → Zone → ℤ → Locals → Type 0
IsFresh sys tz seconds l =
    (eqb_ℤ seconds l.last_second ≡ false) ⊎ (l.time ≡ second_text sys tz seconds)

pub eqb_ℤ-eq : (a b : ℤ) → eqb_ℤ a b ≡ true → a ≡ b
eqb_ℤ-eq (pos a) (pos b) h = ap pos (ground arith)
eqb_ℤ-eq (pos a) (negsuc b) h = absurd (ground arith)
eqb_ℤ-eq (negsuc a) (pos b) h = absurd (ground arith)
eqb_ℤ-eq (negsuc a) (negsuc b) h = ap negsuc (ground arith)

-- The seconds of a thread after a line.
pub record IsCached (sys : System) (tz : Zone) (s : ℤ) (l l' : Locals) : Type 0 where
  pub time_text : l'.time ≡ second_text sys tz s
  pub its_second : l'.last_second ≡ s
  pub same_thread : l'.thread ≡ l.thread

pub cache_second-IsCached :
    (sys : System) (tz : Zone) (s : ℕ) (l : Locals)
    → IsFormatted sys tz
    → IsFresh sys tz (pos s) l
    → (l' : Locals) × (cache_second sys tz (pos s) l ≡ done l') × IsCached sys tz (pos s) l l'
unfolding cache_second
cache_second-IsCached sys tz s l f fresh = elim (Bool-cases (eqb_ℤ (pos s) l.last_second)) [
  | inr e ↦
      rw (e, f.seconds_width s)
        (
          record l { time = second_text sys tz (pos s); last_second = pos s },
          refl,
          record { time_text = refl; its_second = refl; same_thread = refl },
        )
  | inl e ↦ rw e (
    l,
    refl,
    record {
      time_text = elim fresh [
        | inl d ↦ absurd (let x : true ≡ false = sym e ∙ d in cc)
        | inr t ↦ t
      ];
      its_second = sym (eqb_ℤ-eq (pos s) l.last_second e);
      same_thread = refl;
    },
  )
]

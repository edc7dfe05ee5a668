-- ===== src/AsyncLogging/Shapes.antt =====
-- MyNet/base/AsyncLogging.cc: the buffers that each side has, and what a step makes of them.
use my_net.Common.{
  ℕ, ◌≤◌, ◌<◌, ◌≡◌, refl, sym, ap, ◌∙◌, subst, ◌⊎◌, inl, inr, Option, none, some, List, [], ◌∷◌,
  ◌++◌, length, length-replicate, replicate, append-nil, append_assoc, arith, dec_lt,
}
use my_net.Common.Outcome.{Outcome, Fault, done, done_inj, fault, null_pointer}
use my_net.Condition.{Condition, fresh, notify}
use my_net.LogStream.{
  FixedBuffer, avail, as_string, bzero, reset, append as append_line, make as make_buffer,
}
use my_net.LogStream.Writes.{append-Extends}
use my_net.AsyncLogging.{
  Front, Back, init, append, append_full, append_to, exchange, exchange_cur, write_out, take_spare,
  pop_back, kept,
}

-- A buffer of `size` characters that holds `text`.
pub record Holds (size : ℕ) (text : List ℕ) (b : FixedBuffer) : Type 0 where
  pub storage : length b.chars ≡ size
  pub inside : b.cur ≤ length b.chars
  pub held : as_string b ≡ text

-- The front has two buffers, or one and a full one in the list.
pub data FrontShape (size : ℕ) : Front → List ℕ → Type 0 where
  both :
      (b c : FixedBuffer) (k : Condition) (x : List ℕ)
      → Holds size x b
      → Holds size [] c
      → c.cur ≡ 0
      → FrontShape size (record { cur = some b; next = some c; buffs = []; cond = k }) x
  last :
      (d b : FixedBuffer) (k : Condition) (x y : List ℕ)
      → Holds size x d
      → Holds size y b
      → FrontShape size (record { cur = some b; next = none; buffs = d ∷ []; cond = k }) (x ++ y)

-- The back has two empty buffers, or it has handed out one or both and has as many to write.
pub data BackShape (size : ℕ) : Back → List ℕ → Type 0 where
  resting :
      (f g : FixedBuffer)
      → Holds size [] f
      → f.cur ≡ 0
      → Holds size [] g
      → g.cur ≡ 0
      → BackShape size (record { first = some f; second = some g; to_write = [] }) []
  one_out :
      (b g : FixedBuffer) (x : List ℕ)
      → Holds size x b
      → Holds size [] g
      → g.cur ≡ 0
      → BackShape size (record { first = none; second = some g; to_write = b ∷ [] }) x
  both_out :
      (d b : FixedBuffer) (x y : List ℕ)
      → Holds size x d
      → Holds size y b
      → BackShape size (record { first = none; second = none; to_write = d ∷ b ∷ [] }) (x ++ y)

pub fresh-Holds : (size : ℕ) → Holds size [] (make_buffer size)
fresh-Holds size = record {
  storage = length-replicate {A = ℕ} size 0;
  inside = omega arith;
  held = refl;
}

pub init-FrontShape : (size : ℕ) → FrontShape size (init size) []
unfolding init bzero
init-FrontShape size =
    let zeros : bzero (make_buffer size) ≡ make_buffer size =
      ap (λ (t : List ℕ). record { chars = t; cur = 0 })
        (ap (λ m. replicate m 0) (length-replicate {A = ℕ} size 0)) in
    let h = subst (Holds size []) (sym zeros) (fresh-Holds size) in
    both (bzero (make_buffer size)) (bzero (make_buffer size)) fresh [] h h refl

-- A line that fits goes behind the text.
append_line-Holds :
    (size : ℕ) (line x : List ℕ) (b : FixedBuffer)
    → Holds size x b
    → length line ≤ avail b
    → Holds size (x ++ line) (append_line line b).1
append_line-Holds size line x b h k = elim (append-Extends line b (record { inside = h.inside })) [
  | inl (b', e, t) ↦
      subst (λ r. Holds size (x ++ line) r.1) (sym e)
        (record {
          storage = t.storage ∙ h.storage;
          inside = t.valid.inside;
          held = t.line_added ∙ ap (λ (u : List ℕ). u ++ line) h.held;
        })
  | inr (short, e) ↦ absurd (omega arith)
]

append_line-kept :
    (size : ℕ) (line : List ℕ) (c : FixedBuffer)
    → Holds size [] c
    → c.cur ≡ 0
    → Holds size (kept size line) (append_line line c).1
append_line-kept size line c h e = elim (append-Extends line c (record { inside = h.inside })) [
  | inl (b', q, t) ↦
      let all : kept size line ≡ line = let taken = t.taken in ground arith in
      rw all (append_line-Holds size line [] c h (let taken = t.taken in omega arith))
  | inr (short, q) ↦ let nothing : kept size line ≡ [] = ground arith in rw (nothing, q) h
]

append-room :
    (line : List ℕ) (b : FixedBuffer) (o : Option FixedBuffer) (bs : List FixedBuffer)
    (k : Condition)
    → length line < avail b
    → append line (record { cur = some b; next = o; buffs = bs; cond = k })
      ≡ done (record { cur = some (append_line line b).1; next = o; buffs = bs; cond = k })
unfolding append append_to
append-room line b o bs k h = ground arith

append-next :
    (line : List ℕ) (b c : FixedBuffer) (bs : List FixedBuffer) (k : Condition)
    → avail b ≤ length line
    → append line (record { cur = some b; next = some c; buffs = bs; cond = k })
      ≡ done (record {
        cur = some (append_line line c).1;
        next = none;
        buffs = bs ++ b ∷ [];
        cond = notify k;
      })
unfolding append append_to append_full
append-next line b c bs k h = ground arith

append-none :
    (line : List ℕ) (b : FixedBuffer) (bs : List FixedBuffer) (k : Condition)
    → avail b ≤ length line
    → append line (record { cur = some b; next = none; buffs = bs; cond = k }) ≡ fault null_pointer
unfolding append append_to append_full
append-none line b bs k h = ground arith

done≢fault : {A : Type 0} {m : Outcome A} {a : A} {e : Fault} → m ≡ done a → m ≡ fault e → ⊥
done≢fault e f = cc

fitting :
    (size : ℕ) (line x : List ℕ) (b : FixedBuffer)
    → Holds size x b
    → length line < avail b
    → kept size line ≡ line
fitting size line x b h p = ground arith

pub append-FrontShape :
    (size : ℕ) (line : List ℕ) {x : List ℕ} {s s' : Front}
    → FrontShape size s x
    → append line s ≡ done s'
    → FrontShape size s' (x ++ kept size line)
append-FrontShape size line (both b c k y h g e) q = elim (dec_lt (length line) (avail b)) [
  | yes p ↦
      rw (fitting size line y b h p, ← done_inj (append-room line b (some c) [] k p) q)
        (both (append_line line b).1 c k (y ++ line)
          (append_line-Holds size line y b h (omega arith)) g e)
  | no p ↦ rw (← done_inj (append-next line b c [] k (omega arith)) q) (
      last b (append_line line c).1 (notify k) y (kept size line) h
        (append_line-kept size line c g e))
]
append-FrontShape size line (last d b k y z h g) q = elim (dec_lt (length line) (avail b)) [
  | yes p ↦
      rw
        (
          fitting size line z b g p,
          ← done_inj (append-room line b none (d ∷ []) k p) q,
          append_assoc,
        )
        (last d (append_line line b).1 k y (z ++ line) h
          (append_line-Holds size line z b g (omega arith)))
  | no p ↦ absurd (done≢fault q (append-none line b (d ∷ []) k (omega arith)))
]

-- What the front keeps for a line, with the current buffer `b`: the line goes into a buffer with room, or
-- the next buffer takes the place of a full one.
abbrev pub Taken : List ℕ → FixedBuffer → Front → Front → Type 0
Taken line b s s' =
    (length line < avail b) × (s'.buffs ≡ s.buffs) × (s'.next ≡ s.next)
    ⊎ (avail b ≤ length line)
      × ((c : FixedBuffer) × (s.next ≡ some c))
      × (s'.buffs ≡ s.buffs ++ (b ∷ []))
      × (s'.next ≡ none)

-- A line is taken unless the current buffer is full and there is no next one.
pub append-cases :
    (size : ℕ) (line : List ℕ) {x : List ℕ} {s : Front}
    → FrontShape size s x
    → (b : FixedBuffer) × (s.cur ≡ some b)
      × (((s' : Front) × (append line s ≡ done s') × Taken line b s s')
          ⊎ ((avail b ≤ length line) × (s.next ≡ none) × (append line s ≡ fault null_pointer)))
append-cases size line (both b c k y h g e) = elim (dec_lt (length line) (avail b)) [
  | yes p ↦ (b, refl, inl (_, append-room line b (some c) [] k p, inl (p, refl, refl)))
  | no p ↦ (
    b,
    refl,
    inl (_, append-next line b c [] k (omega arith), inr (omega arith, (c, refl), refl, refl)),
  )
]
append-cases size line (last d b k y z h g) = elim (dec_lt (length line) (avail b)) [
  | yes p ↦ (b, refl, inl (_, append-room line b none (d ∷ []) k p, inl (p, refl, refl)))
  | no p ↦ (b, refl, inr (omega arith, refl, append-none line b (d ∷ []) k (omega arith)))
]

-- The exchange hands the text over and leaves the front empty.
pub exchange-shapes :
    (size : ℕ) {x y : List ℕ} {s : Front} {k : Back}
    → FrontShape size s x
    → BackShape size k y
    → length k.to_write ≡ 0
    → (s' : Front) × (k' : Back) × (exchange s k ≡ done (s', k'))
      × FrontShape size s' []
      × BackShape size k' x
      × (y ≡ [])
      × (0 < length k'.to_write)
unfolding exchange exchange_cur
exchange-shapes size (both b c w x h g e) (resting f f' i j i' j') z =
    (_, _, refl, both f c w [] i g e, one_out b f' x h i' j', refl, omega arith)
exchange-shapes size (last d b w x y h g) (resting f f' i j i' j') z =
    (_, _, refl, both f f' w [] i i' j', both_out d b x y h g, refl, omega arith)
exchange-shapes size fs (one_out b g x i j e) z = absurd (omega arith)
exchange-shapes size fs (both_out d b x y i j) z = absurd (omega arith)

reset-Holds : (size : ℕ) (x : List ℕ) (b : FixedBuffer) → Holds size x b → Holds size [] (reset b)
unfolding reset
reset-Holds size x b h = record { storage = h.storage; inside = omega arith; held = refl }

-- The writing thread writes the text that it was handed, none of it is dropped, and it has both its
-- buffers again.
pub write_out-shapes :
    (size : ℕ) (message : List ℕ) {x : List ℕ} {k : Back}
    → BackShape size k x
    → 0 < length k.to_write
    → (k' : Back) × (write_out message k ≡ done (x, k')) × BackShape size k' [] × (k'.to_write ≡ [])
unfolding write_out take_spare pop_back reset
write_out-shapes size message (resting f g i j i' j') z = absurd (omega arith)
write_out-shapes size message (one_out b g x h i e) z = (
  _,
  ap (λ (t : List ℕ). done (t, record { first = some (reset b); second = some g; to_write = [] }))
      (append-nil (as_string b) ∙ h.held),
  resting (reset b) g (reset-Holds size x b h) refl i e,
  refl,
)
write_out-shapes size message (both_out d b x y h i) z = (
  _,
  ap
      (λ (t : List ℕ).
        done (t, record { first = some (reset b); second = some (reset d); to_write = [] }))
      (ap (λ (t : List ℕ). as_string d ++ t) (append-nil (as_string b) ∙ i.held)
        ∙ ap (λ (t : List ℕ). t ++ y) h.held),
  resting (reset b) (reset d) (reset-Holds size y b i) refl (reset-Holds size x d h) refl,
  refl,
)

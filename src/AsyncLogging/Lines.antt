-- ===== src/AsyncLogging/Lines.antt =====
-- MyNet/base/AsyncLogging.cc: no line is lost or written twice, and the lines keep their order.
use my_net.Common.{
  ℕ, ◌≤◌, ◌<◌, ◌≡◌, refl, sym, subst, ap, ◌∙◌, ◌⊎◌, inl, inr, none, some, List, [], ◌++◌, length,
  append-nil, append_assoc, arith, ℕ_discrete,
}
use my_net.Common.Outcome.{done, done_inj, fault, null_pointer}
use my_net.LogStream.{FixedBuffer, avail, as_string}
use my_net.AsyncLogging.{
  Front, Back, append, exchange, write_out, texts, kept, Trace, start, appends, exchanges, writes,
}
use my_net.AsyncLogging.Shapes.{
  FrontShape, both, last, BackShape, resting, one_out, both_out, fresh-Holds, init-FrontShape,
  append-FrontShape, append-cases, Taken, exchange-shapes, write_out-shapes,
}

-- The text that the front holds: the full buffers, then the current one.
abbrev pub pending : Front → List ℕ
pending s = elim s.cur [ none ↦ texts s.buffs | some b ↦ texts s.buffs ++ as_string b ]

-- Both sides have the buffers that they need, and what was logged is what was written, then what is
-- handed over, then what is pending.
record Inv (size : ℕ) (s : Front) (k : Back) (a w : List ℕ) : Type 0 where
  front_text : List ℕ
  back_text : List ℕ
  front_shape : FrontShape size s front_text
  back_shape : BackShape size k back_text
  conserved : a ≡ w ++ (back_text ++ front_text)

FrontShape-pending : {size : ℕ} {s : Front} {x : List ℕ} → FrontShape size s x → x ≡ pending s
FrontShape-pending (both b c k x h g e) = sym h.held
FrontShape-pending (last d b k x y h g) = sym (
    ap (λ (t : List ℕ). t ++ as_string b) (append-nil (as_string d) ∙ h.held)
    ∙ ap (λ (t : List ℕ). x ++ t) g.held)

BackShape-texts : {size : ℕ} {k : Back} {x : List ℕ} → BackShape size k x → x ≡ texts k.to_write
BackShape-texts (resting f g h e i j) = refl
BackShape-texts (one_out b g x h i e) = sym (append-nil (as_string b) ∙ h.held)
BackShape-texts (both_out d b x y h i) = sym (
    ap (λ (t : List ℕ). as_string d ++ t) (append-nil (as_string b) ∙ i.held)
    ∙ ap (λ (t : List ℕ). t ++ y) h.held)

Trace-Inv :
    {size : ℕ} {message : List ℕ} {s : Front} {k : Back} {a w : List ℕ}
    → Trace size message s k a w
    → Inv size s k a w
Trace-Inv {size} start = record {
  front_text = [];
  back_text = [];
  front_shape = init-FrontShape size;
  back_shape = resting _ _ (fresh-Holds size) refl (fresh-Holds size) refl;
  conserved = refl;
}
Trace-Inv {size} {message} (appends {a} {w} line s' t q) =
    let v = Trace-Inv t in
    record {
      front_text = v.front_text ++ kept size line;
      back_text = v.back_text;
      front_shape = append-FrontShape size line v.front_shape q;
      back_shape = v.back_shape;
      conserved =
          ap (λ (u : List ℕ). u ++ kept size line) v.conserved
          ∙ append_assoc w (v.back_text ++ v.front_text) (kept size line)
          ∙ ap (λ (u : List ℕ). w ++ u) (append_assoc v.back_text v.front_text (kept size line));
    }
Trace-Inv {size} {message} (exchanges {a} {w} s' k' t z q) =
    let v = Trace-Inv t in
    let (s₁, k₁, e, fs, bs, empty, some_out) = exchange-shapes size v.front_shape v.back_shape z in
    let same = done_inj e q in
    record {
      front_text = [];
      back_text = v.front_text;
      front_shape = subst (λ r. FrontShape size r.0 []) same fs;
      back_shape = subst (λ r. BackShape size r.1 v.front_text) same bs;
      conserved =
          v.conserved
          ∙ ap (λ (u : List ℕ). w ++ (u ++ v.front_text)) empty
          ∙ ap (λ (u : List ℕ). w ++ u) (sym (append-nil v.front_text));
    }
Trace-Inv {size} {message} (writes {a} {w} out k' t z q) =
    let v = Trace-Inv t in
    let (k₁, e, bs, none_left) = write_out-shapes size message v.back_shape z in
    let same = done_inj e q in
    record {
      front_text = v.front_text;
      back_text = [];
      front_shape = v.front_shape;
      back_shape = subst (λ r. BackShape size r.1 []) same bs;
      conserved =
          v.conserved
          ∙ ap (λ r. w ++ (r.0 ++ v.front_text)) same
          ∙ sym (append_assoc w out v.front_text);
    }

-- What the writing thread has in every run.
pub Trace-BackShape :
    {size : ℕ} {message : List ℕ} {s : Front} {k : Back} {a w : List ℕ}
    → Trace size message s k a w
    → (x : List ℕ) × BackShape size k x
Trace-BackShape t = let v = Trace-Inv t in (v.back_text, v.back_shape)

-- In every run of the threads that log and the thread that writes, the text of the lines logged
-- that a buffer can hold, in order, is the text written, followed by that of the buffers handed
-- over, followed by that of the buffers in front: no such line is lost, written twice or moved.
pub Trace-conserved :
    {size : ℕ} {message : List ℕ} {s : Front} {k : Back} {a w : List ℕ}
    → Trace size message s k a w
    → a ≡ w ++ (texts k.to_write ++ pending s)
Trace-conserved {s} {k} {w} t =
    let v = Trace-Inv t in
    v.conserved
    ∙ ap (λ (u : List ℕ). w ++ (u ++ v.front_text)) (BackShape-texts v.back_shape)
    ∙ ap (λ (u : List ℕ). w ++ (texts k.to_write ++ u)) (FrontShape-pending v.front_shape)

-- In every run the writing thread's next step succeeds, so that none of its assertions fails:
-- either it has nothing to write, and the exchange hands it all the pending text and at least
-- one buffer and leaves nothing pending, or it writes all that was handed over, drops none of it
-- and has nothing left to write.
pub Trace-progress :
    {size : ℕ} {message : List ℕ} {s : Front} {k : Back} {a w : List ℕ}
    → Trace size message s k a w
    → (length k.to_write ≡ 0)
        × ((s' : Front) × (k' : Back) × (exchange s k ≡ done (s', k'))
            × (pending s' ≡ [])
            × (texts k'.to_write ≡ pending s)
            × (0 < length k'.to_write))
      ⊎ (0 < length k.to_write)
        × ((k' : Back) × (write_out message k ≡ done (texts k.to_write, k')) × (k'.to_write ≡ []))
Trace-progress {size} {message} {k} t =
    let v = Trace-Inv t in
    elim (ℕ_discrete (length k.to_write) 0) [
      | yes z ↦
          let (s', k', e, fs, bs, empty, some_out) =
            exchange-shapes size v.front_shape v.back_shape z in
          inl (
            z,
            (
              s',
              k',
              e,
              sym (FrontShape-pending fs),
              sym (BackShape-texts bs) ∙ FrontShape-pending v.front_shape,
              some_out,
            ),
          )
      | no z ↦
          let (k', e, bs, none_left) = write_out-shapes size message v.back_shape (omega arith) in
          inr (
            omega arith,
            (k', e ∙ ap (λ (u : List ℕ). done (u, k')) (BackShape-texts v.back_shape), none_left),
          )
    ]

-- In every run there is a current buffer, and `append` of any line does one of three things:
-- with more room than the line is long it leaves the list and the next buffer as they are; with
-- no more room and a next buffer it puts the current one at the end of the list and the next one
-- in its place; and with neither it calls through the pointer that has just released its buffer.
-- In the first two cases what is pending has grown by the line, if a buffer can hold it.
pub Trace-append :
    {size : ℕ} {message : List ℕ} {s : Front} {k : Back} {a w : List ℕ}
    → Trace size message s k a w
    → (line : List ℕ)
    → (b : FixedBuffer) × (s.cur ≡ some b)
      × (((s' : Front) × (append line s ≡ done s')
            × Taken line b s s'
            × (pending s' ≡ pending s ++ kept size line))
          ⊎ ((avail b ≤ length line) × (s.next ≡ none) × (append line s ≡ fault null_pointer)))
Trace-append {size} t line =
    let shape = (Trace-Inv t).front_shape in
    let (b, current, c) = append-cases size line shape in
    (
      b,
      current,
      elim c [
        | inl (s', e, taken) ↦ inl (
          s',
          e,
          taken,
          sym (FrontShape-pending (append-FrontShape size line shape e))
              ∙ ap (λ (x : List ℕ). x ++ kept size line) (FrontShape-pending shape),
        )
        | inr full ↦ inr full
      ],
    )

-- ===== src/AsyncLogging/Lifetime/Places.antt =====
-- MyNet/base/AsyncLogging.cc: what holds at each place of the writing thread and of the owner.
use my_net.Common.{
  ℕ, ◌<◌, ◌≡◌, ◌⊎◌, inl, inr, refl, sym, ap, ◌∙◌, subst, Bool, true, false, none, some, List, [],
  length, append-nil, ◌++◌, arith,
}
use my_net.Common.Int.{ℤ, pos}
use my_net.Common.Outcome.{deadlock}
use my_net.CountDownLatch.{count_down}
use my_net.LogFile.{LogFile, flush}
use my_net.LogFile.Rolling.{text, IsReady}
use my_net.AsyncLogging.{Back, Trace, exchanges, writes as writes_out, texts, exchange, write_out}
use my_net.AsyncLogging.Lines.{Trace-BackShape, Trace-progress}
use my_net.AsyncLogging.Lifetime.{
  Setting, Clock, Owner, new_object, at_latch, blocked, in_use, joining, finished, Writer,
  no_thread, entering, testing, exchanging, writing, returned, stuck, held_up, no_fuel, Async,
  new_log, to_append, left_after, write_round, after_exchange, after_round, after_flush, step_from,
}
use my_net.AsyncLogging.Lifetime.Rounds.{
  Works, InPart, new_log-IsReady, flush-Grows, write_round-Grows, to_append-texts,
  left_after-InPart,
}

-- The text in the files of the writing thread's log.
abbrev pub log_text : Writer → List ℕ
log_text no_thread = []
log_text entering = []
log_text (testing f) = text f
log_text (exchanging f) = text f
log_text (writing f) = text f
log_text (returned f) = text f
log_text (stuck e none) = []
log_text (stuck e (some f)) = text f
log_text (held_up f) = text f
log_text (no_fuel f) = text f

-- What the files hold after the text that was written out in whole rounds: where the writing thread waits
-- for its own lock, a part of what it was handed; else nothing.
abbrev pub Brought : Writer → Back → List ℕ → Type 0
Brought (stuck e o) k out = InPart out (texts k.to_write) (log_text (stuck e o))
Brought w k out = log_text w ≡ out

-- What the writing thread has to write at each place, and its log. It stops at no fault but that of its
-- own lock.
abbrev pub Place : Writer → Back → Type 0
Place no_thread k = length k.to_write ≡ 0
Place entering k = length k.to_write ≡ 0
Place (testing f) k = (length k.to_write ≡ 0) × IsReady f
Place (exchanging f) k = (length k.to_write ≡ 0) × IsReady f
Place (writing f) k = (0 < length k.to_write) × IsReady f
Place (returned f) k = (length k.to_write ≡ 0) × IsReady f
Place (stuck e o) k = e ≡ deadlock
Place (held_up f) k = ⊥
Place (no_fuel f) k = ⊥

-- The writing thread has counted the latch down.
abbrev pub Later : Writer → Type 0
Later no_thread = ⊥
Later entering = ⊥
Later (testing f) = Unit {0}
Later (exchanging f) = Unit {0}
Later (writing f) = Unit {0}
Later (returned f) = Unit {0}
Later (stuck e o) = Unit {0}
Later (held_up f) = Unit {0}
Later (no_fuel f) = Unit {0}

-- `m_running`, the latch's count and the writing thread while the owner is at a place.
abbrev pub Stage : Owner → Bool → ℤ → Writer → Type 0
Stage new_object b c w = (b ≡ false) × (c ≡ pos 1) × (w ≡ no_thread)
Stage at_latch b c w = (b ≡ true) × ((c ≡ pos 1) × (w ≡ entering) ⊎ Later w)
Stage blocked b c w = (b ≡ true) × ((c ≡ pos 1) × (w ≡ entering) ⊎ Later w)
Stage in_use b c w = (b ≡ true) × Later w
Stage joining b c w = (b ≡ false) × Later w
Stage finished b c w = (b ≡ false) × Later w

pub record Inv (e : Setting) (s : Async) (a : List ℕ) : Type 0 where
  pub out : List ℕ
  pub trace : Trace e.size e.message s.front s.back a out
  pub brought : Brought s.writer s.back out
  pub place : Place s.writer s.back
  pub stage : Stage s.owner s.running s.latch.count s.writer

Stage-Later :
    (o : Owner) (b : Bool) (c c' : ℤ) (w w' : Writer)
    → Later w
    → Later w'
    → Stage o b c w
    → Stage o b c' w'
Stage-Later new_object b c c' w w' l l' (e, d, n) = absurd (subst Later n l)
Stage-Later at_latch b c c' w w' l l' (e, h) = (e, inr l')
Stage-Later blocked b c c' w w' l l' (e, h) = (e, inr l')
Stage-Later in_use b c c' w w' l l' (e, h) = (e, l')
Stage-Later joining b c c' w w' l l' (e, h) = (e, l')
Stage-Later finished b c c' w w' l l' (e, h) = (e, l')

-- While the writing thread enters, `start` has not returned.
Stage-entering :
    (o : Owner) (b : Bool) (c c' : ℤ) (w' : Writer)
    → Later w'
    → Stage o b c entering
    → (b ≡ true) × Stage o b c' w'
Stage-entering new_object b c c' w' l' (e, d, n) = absurd cc
Stage-entering at_latch b c c' w' l' (e, h) = (e, (e, inr l'))
Stage-entering blocked b c c' w' l' (e, h) = (e, (e, inr l'))
Stage-entering in_use b c c' w' l' (e, l) = absurd l
Stage-entering joining b c c' w' l' (e, l) = absurd l
Stage-entering finished b c c' w' l' (e, l) = absurd l

-- The object with the writing thread at a place, and `m_running`.
abbrev pub at : Async → Bool → Writer → Async
at s b w = record s { running = b; writer = w }

after_flush-Inv :
    (e : Setting) (f : LogFile) (s : Async) (a : List ℕ)
    → Inv e (at s false (testing f)) a
    → Inv e (after_flush (flush e.tid f) f (at s false (testing f))) a
after_flush-Inv e f s a v = elim (flush-Grows e.tid f v.place.1) [
  | inl q ↦ rw q (record {
    out = v.out;
    trace = v.trace;
    brought = ([], texts s.back.to_write, v.brought ∙ sym (append-nil v.out), refl);
    place = refl;
    stage = Stage-Later s.owner _ _ _ _ _ tt tt v.stage;
  })
  | inr (f', q, (t, r)) ↦ rw q (record {
    out = v.out;
    trace = v.trace;
    brought = t ∙ append-nil (text f) ∙ v.brought;
    place = (v.place.0, r);
    stage = Stage-Later s.owner _ _ _ _ _ tt tt v.stage;
  })
]

exchange-Inv :
    (e : Setting) (b : Bool) (f : LogFile) (s : Async) (a : List ℕ)
    → Inv e (at s b (exchanging f)) a
    → Inv e (after_exchange (exchange s.front s.back) f (at s b (exchanging f))) a
exchange-Inv e b f s a v = elim (Trace-progress v.trace) [
  | inl (z, (s', k', q, _, _, some_out)) ↦ rw q (record {
    out = v.out;
    trace = exchanges s' k' v.trace z q;
    brought = v.brought;
    place = (some_out, v.place.1);
    stage = Stage-Later s.owner _ _ _ _ _ tt tt v.stage;
  })
  | inr (n, _) ↦ absurd (let z = v.place.0 in omega arith)
]

round-Inv :
    (e : Setting) (clock : Clock) (b : Bool) (f : LogFile) (s : Async) (a : List ℕ)
    → Works e
    → Inv e (at s b (writing f)) a
    → Inv e
        (after_round
          (write_round e clock s.back.to_write f)
          (write_out e.message s.back)
          (left_after e clock 0 (to_append e.message s.back.to_write) f)
          (at s b (writing f)))
        a
round-Inv e clock b f s a h v =
    elim (write_round-Grows e clock f h (Trace-BackShape v.trace).1 v.place.1) [
      | inl q ↦ rw q (record {
        out = v.out;
        trace = v.trace;
        brought =
            let (l, same) = to_append-texts e h (Trace-BackShape v.trace).1 in
            let left = left_after e clock 0 (to_append e.message s.back.to_write) f in
            subst (λ (x : List ℕ). InPart x (texts s.back.to_write) (text left)) v.brought
              (subst (λ (x : List ℕ). InPart (text f) x (text left)) same
                (left_after-InPart e clock 0 (to_append e.message s.back.to_write) f h l
                  v.place.1));
        place = refl;
        stage = Stage-Later s.owner _ _ _ _ _ tt tt v.stage;
      })
      | inr (f', q, (t, r)) ↦ elim (Trace-progress v.trace) [
        | inl (z, _) ↦ absurd (let n = v.place.0 in omega arith)
        | inr (n, (k', q', none_left)) ↦
            rw (q, q')
              (record {
                out = v.out ++ texts s.back.to_write;
                trace = writes_out (texts s.back.to_write) k' v.trace n q';
                brought = t ∙ ap (λ (x : List ℕ). x ++ texts s.back.to_write) v.brought;
                place = (ap length none_left, r);
                stage = Stage-Later s.owner _ _ _ _ _ tt tt v.stage;
              })
      ]
    ]

pub step_from-Inv :
    (e : Setting) (clock : Clock) (b : Bool) (w : Writer) (s : Async) (a : List ℕ)
    → Works e
    → Inv e (at s b w) a
    → Inv e (step_from e clock w (at s b w)) a
step_from-Inv e clock b no_thread s a h v = v
step_from-Inv e clock true entering s a h v =
    let (t, r) = new_log-IsReady e (clock 0).0 h in
    record {
      out = v.out;
      trace = v.trace;
      brought = t ∙ v.brought;
      place = (v.place, r);
      stage =
          (Stage-entering s.owner _ _ (count_down s.latch).count (testing (new_log e (clock 0).0))
            tt v.stage).1;
    }
step_from-Inv e clock false entering s a h v = absurd (
    let (started, _) = Stage-entering s.owner _ _ s.latch.count (stuck deadlock none) tt v.stage in
    cc)
step_from-Inv e clock true (testing f) s a h v = record {
  out = v.out;
  trace = v.trace;
  brought = v.brought;
  place = v.place;
  stage = Stage-Later s.owner _ _ _ _ _ tt tt v.stage;
}
step_from-Inv e clock false (testing f) s a h v = after_flush-Inv e f s a v
step_from-Inv e clock b (exchanging f) s a h v = exchange-Inv e b f s a v
step_from-Inv e clock b (writing f) s a h v = round-Inv e clock b f s a h v
step_from-Inv e clock b (returned f) s a h v = v
step_from-Inv e clock b (stuck x o) s a h v = v
step_from-Inv e clock b (held_up f) s a h v = v
step_from-Inv e clock b (no_fuel f) s a h v = v

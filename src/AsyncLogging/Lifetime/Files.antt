-- ===== src/AsyncLogging/Lifetime/Files.antt =====
-- MyNet/base/AsyncLogging.cc: the text that an asynchronous log brings to its files, and how it ends.
use my_net.Common.{
  ℕ, ◌≡◌, ◌⊎◌, inl, inr, refl, sym, subst, Bool, true, false, Bool-cases, List, [], ◌++◌, ap, ◌∙◌,
  append_assoc,
}
use my_net.Common.Int.{ℤ, pos, ltb_ℤ}
use my_net.CountDownLatch.{Latch, wait_zero, wait_again}
use my_net.Condition.{resume}
use my_net.AsyncLogging.{Back, appends, start as at_start, texts}
use my_net.LogFile.Rolling.{text}
use my_net.AsyncLogging.Lines.{pending, Trace-conserved}
use my_net.AsyncLogging.Lifetime.{
  Setting, Owner, new_object, at_latch, blocked, in_use, joining, Writer, no_thread, entering,
  testing, exchanging, writing, returned, stuck, held_up, no_fuel, Async, new_async, start,
  after_latch, wait_latch, wait_latch_again, stop, destroy, after_join, join, writer_step, Life,
  made, starts, waits_latch, waits_latch_again, destroys, joins, logs, writes,
}
use my_net.AsyncLogging.Lifetime.Rounds.{Works}
use my_net.AsyncLogging.Lifetime.Places.{log_text, Brought, Place, Stage, Inv, step_from-Inv}

-- The latch lets its owner through only after the writing thread has counted it down.
latch-Stage :
    (b : Bool) (l : Latch) (c : ℤ) (w : Writer)
    → l.count ≡ c
    → Stage at_latch b c w
    → ((wait_zero l).0 ≡ true) × Stage in_use b c w
      ⊎ ((wait_zero l).0 ≡ false) × ((wait_zero l).1.count ≡ c)
unfolding wait_zero
latch-Stage b l c w same (e, h) = elim (Bool-cases (ltb_ℤ (pos 0) l.count)) [
  | inl q ↦ rw q (inr (refl, same))
  | inr q ↦ rw q (elim h [
    | inl (one, _) ↦ absurd (let up : ltb_ℤ (pos 0) l.count ≡ true = rw (same, one) refl in cc)
    | inr l' ↦ inl (refl, (e, l'))
  ])
]

after_latch-Inv :
    (e : Setting) (r : Bool × Latch) (s : Async) (a : List ℕ)
    → Inv e s a
    → Stage at_latch s.running s.latch.count s.writer
    → (r.0 ≡ true) × Stage in_use s.running s.latch.count s.writer
      ⊎ (r.0 ≡ false) × (r.1.count ≡ s.latch.count)
    → Inv e (after_latch r s) a
after_latch-Inv e (true, l) s a v g (inl (_, h)) = record {
  out = v.out;
  trace = v.trace;
  brought = v.brought;
  place = v.place;
  stage = h;
}
after_latch-Inv e (true, l) s a v g (inr (q, _)) = absurd cc
after_latch-Inv e (false, l) s a v g (inl (q, _)) = absurd cc
after_latch-Inv e (false, l) s a v g (inr (_, h)) = record {
  out = v.out;
  trace = v.trace;
  brought = v.brought;
  place = v.place;
  stage = subst (λ (c : ℤ). Stage blocked s.running c s.writer) (sym h) g;
}

wait-Inv :
    (e : Setting) (l : Latch) (s : Async) (a : List ℕ)
    → l.count ≡ s.latch.count
    → Inv e s a
    → Stage at_latch s.running s.latch.count s.writer
    → Inv e (after_latch (wait_zero l) s) a
wait-Inv e l s a same v g =
    after_latch-Inv e (wait_zero l) s a v g (latch-Stage s.running l s.latch.count s.writer same g)

join-Inv :
    (e : Setting) (w : Writer) (s : Async) (a : List ℕ)
    → s.owner ≡ joining
    → Inv e s a
    → Inv e (after_join w s) a
join-Inv e (returned f) s a o v = record {
  out = v.out;
  trace = v.trace;
  brought = v.brought;
  place = v.place;
  stage = subst (λ (p : Owner). Stage p s.running s.latch.count s.writer) o v.stage;
}
join-Inv e no_thread s a o v = v
join-Inv e entering s a o v = v
join-Inv e (testing f) s a o v = v
join-Inv e (exchanging f) s a o v = v
join-Inv e (writing f) s a o v = v
join-Inv e (stuck x f) s a o v = v
join-Inv e (held_up f) s a o v = v
join-Inv e (no_fuel f) s a o v = v

start-Inv :
    (e : Setting) (s : Async) (a : List ℕ) → Inv e s a → s.owner ≡ new_object → Inv e (start s) a
unfolding start
start-Inv e s a v o =
    let (_, one, none_yet) =
      subst (λ (p : Owner). Stage p s.running s.latch.count s.writer) o v.stage in
    record {
      out = v.out;
      trace = v.trace;
      brought = subst (λ (w : Writer). Brought w s.back v.out) none_yet v.brought;
      place = subst (λ (w : Writer). Place w s.back) none_yet v.place;
      stage = (refl, inl (one, refl));
    }

destroy-Inv :
    (e : Setting) (s : Async) (a : List ℕ) → Inv e s a → s.owner ≡ in_use → Inv e (destroy s) a
unfolding destroy stop
destroy-Inv e s a v o =
    let (up, l) = subst (λ (p : Owner). Stage p s.running s.latch.count s.writer) o v.stage in
    rw up (record {
      out = v.out;
      trace = v.trace;
      brought = v.brought;
      place = v.place;
      stage = (refl, l);
    })

pub Life-Inv : {e : Setting} {s : Async} {a : List ℕ} → Works e → Life e s a → Inv e s a
unfolding new_async wait_latch wait_latch_again wait_again join writer_step
Life-Inv {e} h made = record {
  out = [];
  trace = at_start;
  brought = refl;
  place = refl;
  stage = (refl, refl, refl);
}
Life-Inv {e} {a} h (starts {s} t o) = start-Inv e s a (Life-Inv h t) o
Life-Inv {e} {a} h (waits_latch {s} t o) =
    let v = Life-Inv h t in
    wait-Inv e s.latch s a refl v
      (subst (λ (p : Owner). Stage p s.running s.latch.count s.writer) o v.stage)
Life-Inv {e} {a} h (waits_latch_again {s} t o) =
    let v = Life-Inv h t in
    wait-Inv e (record s.latch { cond = resume s.latch.cond }) s a refl v
      (subst (λ (p : Owner). Stage p s.running s.latch.count s.writer) o v.stage)
Life-Inv {e} {a} h (destroys {s} t o) = destroy-Inv e s a (Life-Inv h t) o
Life-Inv {e} {a} h (joins {s} t o) = join-Inv e s.writer s a o (Life-Inv h t)
Life-Inv {e} h (logs line front t q) =
    let v = Life-Inv h t in
    record {
      out = v.out;
      trace = appends line front v.trace q;
      brought = v.brought;
      place = v.place;
      stage = v.stage;
    }
Life-Inv {e} {a} h (writes {s} clock t) =
    step_from-Inv e clock s.running s.writer s a h (Life-Inv h t)

-- What of the text handed over, `all`, is not in the files: all of it, or, where the writing thread waits
-- for its own lock, what is left of it after a part.
abbrev pub Unwritten : Writer → List ℕ → List ℕ → Type 0
Unwritten (stuck e o) all left = (written : List ℕ) × (written ++ left ≡ all)
Unwritten w all left = left ≡ all

all_left :
    (x out all : List ℕ) → x ≡ out → (left : List ℕ) × (left ≡ all) × (out ++ all ≡ x ++ left)
all_left x out all e = (all, refl, ap (λ (t : List ℕ). t ++ all) (sym e))

Brought-Unwritten :
    (w : Writer) (k : Back) (out : List ℕ)
    → Brought w k out
    → (left : List ℕ) × Unwritten w (texts k.to_write) left
      × (out ++ texts k.to_write ≡ log_text w ++ left)
Brought-Unwritten no_thread k out b = all_left [] out (texts k.to_write) b
Brought-Unwritten entering k out b = all_left [] out (texts k.to_write) b
Brought-Unwritten (testing f) k out b = all_left (text f) out (texts k.to_write) b
Brought-Unwritten (exchanging f) k out b = all_left (text f) out (texts k.to_write) b
Brought-Unwritten (writing f) k out b = all_left (text f) out (texts k.to_write) b
Brought-Unwritten (returned f) k out b = all_left (text f) out (texts k.to_write) b
Brought-Unwritten (held_up f) k out b = all_left (text f) out (texts k.to_write) b
Brought-Unwritten (no_fuel f) k out b = all_left (text f) out (texts k.to_write) b
Brought-Unwritten (stuck e o) k out (written, left, p, q) = (
  left,
  (written, q),
  ap (λ (x : List ℕ). out ++ x) (sym q)
      ∙ sym (append_assoc out written left)
      ∙ ap (λ (x : List ℕ). x ++ left) (sym p),
)

-- For new files that open, a stream that takes what it is given and reports no error, and more
-- fuel than the size of a buffer, in every run from the constructor to the end of the writing
-- thread the text logged that a buffer can hold, in order, is the text in the files of the log,
-- over all the files that were rolled, followed by that handed over and that in front; where the
-- writing thread waits for its own lock, the files hold a part of what was handed over already,
-- and what follows is the rest of it.
pub Life-text :
    {e : Setting} {s : Async} {a : List ℕ}
    → Works e
    → Life e s a
    → (left : List ℕ) × Unwritten s.writer (texts s.back.to_write) left
      × (a ≡ log_text s.writer ++ (left ++ pending s.front))
Life-text {s} h t =
    let v = Life-Inv h t in
    let (left, u, same) = Brought-Unwritten s.writer s.back v.out v.brought in
    (
      left,
      u,
      Trace-conserved v.trace
          ∙ sym (append_assoc v.out (texts s.back.to_write) (pending s.front))
          ∙ ap (λ (x : List ℕ). x ++ pending s.front) same
          ∙ append_assoc (log_text s.writer) left (pending s.front),
    )

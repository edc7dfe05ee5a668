-- ===== src/AsyncLogging/Lifetime/Ending.antt =====
-- MyNet/base/AsyncLogging.cc: the writing thread ends after `stop`.
use my_net.Common.{
  ℕ, ◌<◌, ◌≡◌, ◌⊎◌, inl, inr, refl, sym, ap, ◌∙◌, subst, Bool, false, Option, List, [], ◌∷◌, ◌++◌,
  length, arith,
}
use my_net.Common.Outcome.{deadlock}
use my_net.LogStream.{FixedBuffer}
use my_net.LogFile.{LogFile}
use my_net.LogFile.Rolling.{text}
use my_net.AsyncLogging.{Back, texts}
use my_net.AsyncLogging.Lines.{pending, Trace-BackShape, Trace-conserved, Trace-progress}
use my_net.AsyncLogging.Lifetime.{
  Setting, Clock, Owner, joining, Writer, no_thread, entering, testing, exchanging, writing,
  returned, stuck, held_up, no_fuel, Async, step_from, writer_step, Life,
}
use my_net.AsyncLogging.Lifetime.Rounds.{Works, flush-Grows, write_round-Grows}
use my_net.AsyncLogging.Lifetime.Places.{Place, Later, Stage, Inv, at}
use my_net.AsyncLogging.Lifetime.Files.{Life-Inv}

-- The steps of the writing thread up to its end once `m_running` is false.
abbrev pub steps_left : Writer → ℕ
steps_left (exchanging f) = 3
steps_left (writing f) = 2
steps_left (testing f) = 1
steps_left w = 0

-- The writing thread is at its end, and what is in front is in no file; or it waits for its own lock.
abbrev pub HasEnded : Async → List ℕ → Type 0
HasEnded s a =
    ((f : LogFile) × (s.writer ≡ returned f) × (a ≡ text f ++ pending s.front))
    ⊎ ((o : Option LogFile) × (s.writer ≡ stuck deadlock o))

nothing_left : (bs : List FixedBuffer) → length bs ≡ 0 → texts bs ≡ []
nothing_left [] h = refl
nothing_left (b ∷ bs) h = absurd (omega arith)

-- A step leaves fewer, or there is none.
step_from-less :
    (e : Setting) (clock : Clock) (w : Writer) (s : Async) (a : List ℕ)
    → Works e
    → Later w
    → Inv e (at s false w) a
    → HasEnded (at s false w) a
      ⊎ (steps_left (step_from e clock w (at s false w)).writer < steps_left w)
step_from-less e clock no_thread s a h l v = absurd l
step_from-less e clock entering s a h l v = absurd l
step_from-less e clock (testing f) s a h l v = elim (flush-Grows e.tid f v.place.1) [
  | inl q ↦ inr (rw q (omega arith))
  | inr (f', q, _) ↦ inr (rw q (omega arith))
]
step_from-less e clock (exchanging f) s a h l v = elim (Trace-progress v.trace) [
  | inl (_, (s', k', q, _, _, _)) ↦ inr (rw q (omega arith))
  | inr (n, _) ↦ absurd (let z = v.place.0 in omega arith)
]
step_from-less e clock (writing f) s a h l v =
    elim (write_round-Grows e clock f h (Trace-BackShape v.trace).1 v.place.1) [
      | inl q ↦ inr (rw q (omega arith))
      | inr (f', q, _) ↦ elim (Trace-progress v.trace) [
        | inl (z, _) ↦ absurd (let n = v.place.0 in omega arith)
        | inr (_, (k', q', _)) ↦ inr (rw (q, q') (omega arith))
      ]
    ]
step_from-less e clock (returned f) s a h l v =
    let none_left = nothing_left s.back.to_write v.place.0 in
    inl (
      inl (
        f,
        refl,
        Trace-conserved v.trace
            ∙ ap (λ (t : List ℕ). v.out ++ (t ++ pending s.front)) none_left
            ∙ ap (λ (t : List ℕ). t ++ pending s.front) (sym v.brought),
      ))
step_from-less e clock (stuck x o) s a h l v = inl (inr (o, ap (λ y. stuck y o) v.place))
step_from-less e clock (held_up f) s a h l v = absurd v.place
step_from-less e clock (no_fuel f) s a h l v = absurd v.place

-- For such files, stream and fuel, while the owner is in the `join` of `stop`, a step of the
-- writing thread brings it nearer to its end, of three steps at most, unless it has come to the
-- end, and then the text in front, which is logged, is in no file, or waits for its own lock.
pub Life-stopped :
    {e : Setting} {s : Async} {a : List ℕ}
    → Works e
    → Life e s a
    → s.owner ≡ joining
    → (clock : Clock)
    → HasEnded s a ⊎ (steps_left (writer_step e clock s).writer < steps_left s.writer)
unfolding writer_step
Life-stopped {e} {s} {a} h t o clock =
    let v = Life-Inv h t in
    let (down, l) = subst (λ (p : Owner). Stage p s.running s.latch.count s.writer) o v.stage in
    let same : at s false s.writer ≡ s = ap (λ (b : Bool). at s b s.writer) (sym down) in
    subst
      (λ (r : Async).
        HasEnded r a ⊎ (steps_left (step_from e clock s.writer r).writer < steps_left s.writer))
      same (step_from-less e clock s.writer s a h l (subst (λ (r : Async). Inv e r a) (sym same) v))

-- The writing thread is at a place of its code, or waits for its own lock: none of its assertions has
-- failed, no other thread has the lock, and its fuel is enough.
abbrev pub IsSound : Writer → Type 0
IsSound (stuck x o) = x ≡ deadlock
IsSound (held_up f) = ⊥
IsSound (no_fuel f) = ⊥
IsSound w = Unit {0}

Place-IsSound : (w : Writer) (k : Back) → Place w k → IsSound w
Place-IsSound no_thread k h = tt
Place-IsSound entering k h = tt
Place-IsSound (testing f) k h = tt
Place-IsSound (exchanging f) k h = tt
Place-IsSound (writing f) k h = tt
Place-IsSound (returned f) k h = tt
Place-IsSound (stuck x o) k h = h
Place-IsSound (held_up f) k h = h
Place-IsSound (no_fuel f) k h = h

-- For such files, stream and fuel, in every run the writing thread is at a place of its code or
-- waits for its own lock in an append: none of its assertions fails, that on `m_running`
-- included, no other thread has the lock of its log, and the fuel is enough.
pub Life-IsSound : {e : Setting} {s : Async} {a : List ℕ} → Works e → Life e s a → IsSound s.writer
Life-IsSound {s} h t = Place-IsSound s.writer s.back (Life-Inv h t).place

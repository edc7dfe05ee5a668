-- ===== src/BlockingQueue/Wakeup.antt =====
-- MyNet/base/BlockingQueue.h: values come out in order, and no wakeup is lost.
use my_net.Common.{
  ◌+◌, ◌≤◌, ◌≡◌, refl, sym, ap, ◌∙◌, ◌⊎◌, inl, inr, List, [], ◌∷◌, ◌++◌, length, length-append,
  append_assoc, arith,
}
use my_net.Condition.{wait, notify, resume}
use my_net.BlockingQueue.{
  Queue, put, take_front, get, get_again, wake, returned, Trace, start, puts, gets, resumes,
  spurious,
}

module _ {A : Type 0} where
  -- The values put are those got, and behind them those still in the queue.
  abbrev pub InOrder : Queue A → List A → List A → Type 0
  InOrder q p g = p ≡ g ++ q.items

  -- As long as a `get` is blocked, a woken one is on its way for each value in the queue.
  abbrev pub NoLostWakeup : Queue A → Type 0
  NoLostWakeup q = (q.cond.waiting ≡ 0) ⊎ (length q.items ≤ q.cond.woken)

  take_front-order :
      (xs : List A) (q : Queue A) (p g : List A)
      → q.items ≡ xs
      → InOrder q p g
      → InOrder (take_front xs q).1 p (returned (take_front xs q).0 g)
  unfolding take_front
  take_front-order [] q p g e h = h
  take_front-order (x ∷ xs) q p g e h =
      h ∙ ap (λ (t : List A). g ++ t) e ∙ sym (append_assoc g (x ∷ []) xs)

  take_front-wakeup :
      (xs : List A) (q : Queue A)
      → q.items ≡ xs
      → ((q.cond.waiting ≡ 0) ⊎ (length xs ≤ q.cond.woken + 1))
      → NoLostWakeup (take_front xs q).1
  unfolding take_front wait
  take_front-wakeup [] q e h = inr (rw e (omega arith))
  take_front-wakeup (x ∷ xs) q e h = ground arith

  -- In every run of any number of threads on a new queue the values that were put, in order,
  -- are those that were got followed by those in the queue.
  pub Trace-InOrder : {q : Queue A} {p g : List A} → Trace q p g → InOrder q p g
  unfolding put get get_again wake
  Trace-InOrder start = refl
  Trace-InOrder (puts {q} {p} {g} x t) =
      ap (λ (u : List A). u ++ x ∷ []) (Trace-InOrder t) ∙ append_assoc g q.items (x ∷ [])
  Trace-InOrder (gets {q} {p} {g} t) = take_front-order q.items q p g refl (Trace-InOrder t)
  Trace-InOrder (resumes {q} {p} {g} t h) =
      take_front-order q.items (record q { cond = resume q.cond }) p g refl (Trace-InOrder t)
  Trace-InOrder (spurious t h) = Trace-InOrder t

  -- In every run of any number of threads on a new queue no wakeup is lost: while a `get` is
  -- blocked, a woken one is on its way for each value in the queue.
  pub Trace-NoLostWakeup : {q : Queue A} {p g : List A} → Trace q p g → NoLostWakeup q
  unfolding put get get_again wake notify resume
  Trace-NoLostWakeup start = inl refl
  Trace-NoLostWakeup (puts {q} x t) =
      let ih = Trace-NoLostWakeup t in ground (arith, length-append q.items (x ∷ []))
  Trace-NoLostWakeup (gets {q} t) =
      let ih = Trace-NoLostWakeup t in take_front-wakeup q.items q refl (ground arith)
  Trace-NoLostWakeup (resumes {q} t h) =
      let ih = Trace-NoLostWakeup t in
      take_front-wakeup q.items (record q { cond = resume q.cond }) refl (ground arith)
  Trace-NoLostWakeup (spurious t h) = let ih = Trace-NoLostWakeup t in ground arith

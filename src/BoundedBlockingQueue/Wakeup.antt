-- ===== src/BoundedBlockingQueue/Wakeup.antt =====
-- MyNet/base/BoundedBlockingQueue.h: the bound, the order of the values, and that no wakeup is lost
-- on either side.
use my_net.Common.{
  ℕ, ◌+◌, ◌≤◌, ◌<◌, ◌==◌, ◌≡◌, ◌≢◌, refl, sym, ap, ◌∙◌, ◌⊎◌, inl, inr, true, false, Bool-cases,
  none, some, List, [], ◌∷◌, ◌++◌, length, length-append, append_assoc, arith,
}
use my_net.Condition.{wait, notify, resume}
use my_net.BoundedBlockingQueue.{
  CircularBuffer, Queue, put, get, put_again, get_again, wake_put, wake_get, after_put, after_get,
  Trace, start, puts, puts_again, gets, gets_again, wakes_put, wakes_get,
}

module _ {A : Type 0} (lib : CircularBuffer A) where
  open lib use {
    Ring, full, empty, capacity, front, push_back, pop_front, to_list, full_is, empty_is,
    push_back_is, pop_front_is, make_empty, make_capacity,
  }

  abbrev pub held : Queue lib → List A
  held q = to_list q.ring

  -- `spare` threads that are about to test their loop count as woken.
  record Inv (n : ℕ) (q : Queue lib) (putting getting : ℕ) : Type 0 where
    bound : capacity q.ring ≡ n
    within : length (held q) ≤ n
    put_side : (q.not_full.waiting ≡ 0) ⊎ (n ≤ length (held q) + q.not_full.woken + putting)
    get_side : (q.not_empty.waiting ≡ 0) ⊎ (length (held q) ≤ q.not_empty.woken + getting)

  -- The two ways through each loop, as the queue of values sees them.
  put-full :
      (x : A) (q : Queue lib)
      → full q.ring ≡ true
      → (put lib x q ≡ (false, record q { not_full = wait q.not_full }))
        × (length (held q) ≡ capacity q.ring)
  unfolding put
  put-full x q e = (rw e, ground (arith, full_is q.ring))

  put-room :
      (x : A) (q : Queue lib)
      → full q.ring ≡ false
      → (put lib x q
          ≡ (true, record q { ring = push_back x q.ring; not_empty = notify q.not_empty }))
        × (length (held q) ≢ capacity q.ring)
  unfolding put
  put-room x q e = (rw e, λ h. ground (arith, full_is q.ring))

  get-empty :
      (q : Queue lib) → held q ≡ [] → get lib q ≡ (none, record q { not_empty = wait q.not_empty })
  unfolding get
  get-empty q e =
      let test : empty q.ring ≡ true = empty_is q.ring ∙ ap (λ (t : List A). length t == 0) e in
      rw test

  get-cons :
      (x : A) (xs : List A) (q : Queue lib)
      → held q ≡ x ∷ xs
      → get lib q ≡ (some x, record q { ring = pop_front q.ring; not_full = notify q.not_full })
  unfolding get
  get-cons x xs q e =
      let test : empty q.ring ≡ false =
        empty_is q.ring ∙ ap (λ (t : List A). length t == 0) e ∙ ground arith in
      rw (test, (pop_front_is x xs q.ring e).0)

  length-push_back :
      (x : A) (r : Ring)
      → full r ≡ false
      → (length (to_list (push_back x r)) ≡ length (to_list r) + 1)
        × (capacity (push_back x r) ≡ capacity r)
  length-push_back x r e =
      let (l, c) = push_back_is x r e in (ap length l ∙ length-append (to_list r) (x ∷ []), c)

  put-Inv : (n : ℕ) (x : A) (q : Queue lib) → Inv n q 1 0 → Inv n (put lib x q).1 0 0
  unfolding wait notify
  put-Inv n x q v = elim (Bool-cases (full q.ring)) [
    | inl e ↦ let (step, f) = put-full x q e in rw step (ground arith)
    | inr e ↦
        let (step, f) = put-room x q e in
        let (l, c) = length-push_back x q.ring e in
        rw step (record {
          bound = c ∙ v.bound;
          within = omega arith;
          put_side = ground arith;
          get_side = ground arith;
        })
  ]

  get-Inv :
      (n : ℕ) (ys : List A) (q : Queue lib) → held q ≡ ys → Inv n q 0 1 → Inv n (get lib q).1 0 0
  unfolding wait notify
  get-Inv n [] q e v =
      let none_left : length (held q) ≡ 0 = ap length e in
      rw (get-empty q e) (record {
        bound = v.bound;
        within = v.within;
        put_side = ground arith;
        get_side = ground arith;
      })
  get-Inv n (x ∷ xs) q e v =
      let before : length (held q) ≡ length xs + 1 = ap length e ∙ omega arith in
      let (f, l, c) = pop_front_is x xs q.ring e in
      let after : length (to_list (pop_front q.ring)) ≡ length xs = ap length l in
      rw (get-cons x xs q e) (record {
        bound = c ∙ v.bound;
        within = omega arith;
        put_side = ground arith;
        get_side = ground arith;
      })

  put-order :
      (x : A) (q : Queue lib) (p g : List A)
      → p ≡ g ++ held q
      → after_put lib x (put lib x q).0 p ≡ g ++ held (put lib x q).1
  put-order x q p g h = elim (Bool-cases (full q.ring)) [
    | inl e ↦ rw (put-full x q e).0 h
    | inr e ↦
        rw ((put-room x q e).0, (push_back_is x q.ring e).0, h) (append_assoc g (held q) (x ∷ []))
  ]

  get-order :
      (ys : List A) (q : Queue lib) (p g : List A)
      → held q ≡ ys
      → p ≡ g ++ held q
      → p ≡ after_get lib (get lib q).0 g ++ held (get lib q).1
  get-order [] q p g e h = rw (get-empty q e) h
  get-order (x ∷ xs) q p g e h =
      rw (get-cons x xs q e, (pop_front_is x xs q.ring e).1)
        (h ∙ ap (λ (t : List A). g ++ t) e ∙ sym (append_assoc g (x ∷ []) xs))

  -- In every run of any number of threads on a new bounded queue, over any ring that keeps the
  -- laws of its interface, the values that were put, in order, are those that were got
  -- followed by those in the queue.
  pub Trace-order : {n : ℕ} {q : Queue lib} {p g : List A} → Trace lib n q p g → p ≡ g ++ held q
  unfolding put_again get_again wake_put wake_get
  Trace-order {n} start = sym (make_empty n)
  Trace-order (puts {q} {p} {g} x t) = put-order x q p g (Trace-order t)
  Trace-order (puts_again {q} {p} {g} x t h) =
      put-order x (record q { not_full = resume q.not_full }) p g (Trace-order t)
  Trace-order (gets {q} {p} {g} t) = get-order (held q) q p g refl (Trace-order t)
  Trace-order (gets_again {q} {p} {g} t h) =
      get-order (held q) (record q { not_empty = resume q.not_empty }) p g refl (Trace-order t)
  Trace-order (wakes_put t h) = Trace-order t
  Trace-order (wakes_get t h) = Trace-order t

  Trace-Inv : {n : ℕ} {q : Queue lib} {p g : List A} → Trace lib n q p g → Inv n q 0 0
  unfolding put_again get_again wake_put wake_get notify resume
  Trace-Inv {n} start =
      let none_yet : length (to_list (lib.make n)) ≡ 0 = ap length (make_empty n) in
      record {
        bound = make_capacity n;
        within = omega arith;
        put_side = inl refl;
        get_side = inl refl;
      }
  Trace-Inv {n} (puts {q} x t) = let v = Trace-Inv t in put-Inv n x q (ground arith)
  Trace-Inv {n} (puts_again {q} x t h) =
      let v = Trace-Inv t in put-Inv n x (record q { not_full = resume q.not_full }) (ground arith)
  Trace-Inv {n} (gets {q} t) = let v = Trace-Inv t in get-Inv n (held q) q refl (ground arith)
  Trace-Inv {n} (gets_again {q} t h) =
      let v = Trace-Inv t in
      get-Inv n (held q) (record q { not_empty = resume q.not_empty }) refl (ground arith)
  Trace-Inv (wakes_put t h) = let v = Trace-Inv t in ground arith
  Trace-Inv (wakes_get t h) = let v = Trace-Inv t in ground arith

  -- In every run of any number of threads on a new bounded queue, over any ring that keeps the
  -- laws of its interface, the queue holds no more than its bound; while a `put` is blocked, a
  -- woken one is on its way for each free place; and while a `get` is blocked, a woken one is
  -- on its way for each value.
  pub Trace-bounds :
      {n : ℕ} {q : Queue lib} {p g : List A}
      → Trace lib n q p g
      → (length (held q) ≤ n)
        × ((q.not_full.waiting ≡ 0) ⊎ (n ≤ length (held q) + q.not_full.woken))
        × ((q.not_empty.waiting ≡ 0) ⊎ (length (held q) ≤ q.not_empty.woken))
  Trace-bounds t = let v = Trace-Inv t in ground arith

  -- With a bound above 0, over any ring that keeps the laws of its interface, no run leaves
  -- threads blocked in `put` and in `get` with none of them woken.
  pub Trace-no_deadlock :
      {n : ℕ} {q : Queue lib} {p g : List A}
      → Trace lib n q p g
      → 0 < n
      → 0 < q.not_full.waiting
      → 0 < q.not_empty.waiting
      → 0 < q.not_full.woken + q.not_empty.woken
  Trace-no_deadlock t h a b = let v = Trace-Inv t in ground arith

-- ===== src/ThreadPool/Workers/Settled.antt =====
-- MyNet/base/ThreadPool.cc: the workers of a pool come to rest, in a stopped pool at the end of
-- `runInThread` or in the call of a task.
use my_net.Common.{
  ℕ, ◌+◌, ◌≤◌, ◌≡◌, refl, ap, ◌∙◌, ◌⊎◌, inl, inr, Bool, true, false, List, [], ◌∷◌, ◌++◌, length,
  length-append, append-nil, arith, dec_lt,
}
use my_net.Common.Bags.{bag}
use my_net.ThreadPool.Tasks.{Trace-task_order, Trace-task_bounds, Trace-no_threads}
use my_net.ThreadPool.Workers.{
  Workers, begin_worker, after_test, test_running, enter, enter_again, WorkerStep, begins, tests,
  enters, enters_again, finishes, Reach, works, Works, no_more, one_more,
}
use my_net.ThreadPool.Workers.Threads.{Reach-Inv}
use my_net.ThreadPool.Workers.Conserved.{Reach-Trace, Reach-conserved}
use my_net.ThreadPool.Workers.Work.{work_left, Works-LessLeft}

module _ {T : Type 0} where
  Works-Reach :
      {m k : ℕ} {w w' : Workers T} {s : List T} → Reach m w s → Works k w w' → Reach m w' s
  Works-Reach r no_more = r
  Works-Reach r (one_more v t) = works (Works-Reach r v) t

  -- Nothing is left to do for the workers by themselves: in a running pool every task queued has been
  -- executed and every worker waits, in a stopped one every worker has ended.
  abbrev pub AtRest : Bool → Workers T → List T → Type 0
  AtRest true w s = (w.pool.not_empty.waiting ≡ w.pool.threads) × (bag s ≡ bag w.executed)
  AtRest false w s = w.ended ≡ w.pool.threads

  can_finish :
      (w : Workers T) (ts : List T)
      → w.in_hand ≡ ts
      → (ts ≡ []) ⊎ ((w' : Workers T) × WorkerStep w w')
  can_finish w [] e = inl refl
  can_finish w (t ∷ ts) e = inr (_, finishes [] t ts e)

  -- A step of a worker that is not the end of the task that it calls.
  abbrev pub OwnStep : Workers T → Type 0
  OwnStep w = (w' : Workers T) × WorkerStep w w' × (w'.executed ≡ w.executed)

  test_running-executed : (b : Bool) (w : Workers T) → (after_test b w).executed ≡ w.executed
  test_running-executed true w = refl
  test_running-executed false w = refl

  -- A worker that is at a place of its own can do a step.
  OwnStep-or_none :
      (w : Workers T)
      → OwnStep w
        ⊎ ((w.starting ≡ 0) × (w.testing ≡ 0) × (w.entering ≡ 0) × (w.pool.not_empty.woken ≡ 0))
  unfolding begin_worker test_running enter enter_again
  OwnStep-or_none w = elim (dec_lt 0 w.starting) [
    | yes h ↦ inl (_, begins h, refl)
    | no h₁ ↦ elim (dec_lt 0 w.testing) [
      | yes h ↦ inl (_, tests h, test_running-executed w.pool.running w)
      | no h₂ ↦ elim (dec_lt 0 w.entering) [
        | yes h ↦ inl (_, enters h, refl)
        | no h₃ ↦ elim (dec_lt 0 w.pool.not_empty.woken) [
          | yes h ↦ inl (_, enters_again h, refl)
          | no h₄ ↦ inr (omega arith, omega arith, omega arith, omega arith)
        ]
      ]
    ]
  ]

  step_or_none :
      (w : Workers T)
      → ((w' : Workers T) × WorkerStep w w')
        ⊎ ((w.starting ≡ 0)
            × (w.testing ≡ 0)
            × (w.entering ≡ 0)
            × (w.pool.not_empty.woken ≡ 0)
            × (w.in_hand ≡ []))
  step_or_none w = elim (OwnStep-or_none w) [
    | inl (w', t, e) ↦ inl (w', t)
    | inr (a, i, j, k) ↦ elim (can_finish w w.in_hand refl) [
      | inl none_called ↦ inr (a, i, j, k, none_called)
      | inr step ↦ inl step
    ]
  ]

  no_tasks : (ts : List T) → length ts ≤ 0 → ts ≡ []
  no_tasks [] h = refl
  no_tasks (t ∷ ts) h = absurd (omega arith)

  rest :
      {m : ℕ} {w : Workers T} {s : List T} (b : Bool)
      → Reach m w s
      → w.pool.running ≡ b
      → (w.starting ≡ 0)
        × (w.testing ≡ 0)
        × (w.entering ≡ 0)
        × (w.pool.not_empty.woken ≡ 0)
        × (w.in_hand ≡ [])
      → AtRest b w s
  rest {w} {s} true r e (a, i, j, k, h) =
      let v = Reach-Inv r in
      let (g, t) = Reach-Trace r in
      let (_, _, worker_side, _) = Trace-task_bounds t in
      let alive : w.ended ≡ 0 = ground (arith, v.none_ended, e) in
      let waiting : w.pool.not_empty.waiting ≡ w.pool.threads =
        omega (arith, v.all_there, ap length h) in
      let none_left : w.pool.tasks ≡ [] = elim worker_side [
        | inl z ↦
            let (none_queued, _, _) = Trace-no_threads t (omega arith) in
            no_tasks w.pool.tasks (
              omega (
                arith,
                ap length none_queued,
                ap length (Trace-task_order t),
                length-append g w.pool.tasks,
              ))
        | inr few ↦ no_tasks w.pool.tasks (omega arith)
      ] in
      (
        waiting,
        (Reach-conserved r).1
            ∙ ap (λ (h : List T). bag (w.executed ++ (h ++ w.pool.tasks))) h
            ∙ ap (λ (ts : List T). bag (w.executed ++ ts)) none_left
            ∙ ap bag (append-nil w.executed),
      )
  rest {w} {s} false r e (a, i, j, k, h) =
      let v = Reach-Inv r in
      let (g, t) = Reach-Trace r in
      let (_, _, _, none_waits) = Trace-task_bounds t in
      omega (arith, v.all_there, ap length h, none_waits e)

  -- In every run of a pool, whether it runs or is stopped, the workers by themselves do at
  -- most as many steps as the bound on their work says, and until they are at rest some worker
  -- can do one. At rest, in a running pool every task that was queued has been executed, as
  -- often, and every worker waits; in a stopped one every worker has come to its end.
  pub Reach-rest :
      {m k : ℕ} {w w' : Workers T} {s : List T} (b : Bool)
      → Reach m w s
      → w.pool.running ≡ b
      → Works k w w'
      → (k + work_left b w' ≤ work_left b w)
        × (((w'' : Workers T) × WorkerStep w' w'') ⊎ AtRest b w' s)
  Reach-rest {w'} b r e t =
      let (e', l) = Works-LessLeft t e in
      (
        l,
        elim (step_or_none w') [
          | inl step ↦ inl step
          | inr none ↦ inr (rest b (Works-Reach r t) e' none)
        ],
      )

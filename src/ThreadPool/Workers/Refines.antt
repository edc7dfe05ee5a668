-- ===== src/ThreadPool/Workers/Refines.antt =====
-- MyNet/base/ThreadPool.cc: the pool as a queue of tasks, a bag of those that are called and a list of those
-- that are finished, with the events that its runs show. Which worker calls a task is forgotten.
use my_net.Common.{
  ℕ, ◌⊎◌, ◌==◌, ◌≡◌, leb, subst, length, inl, inr, refl, sym, ap, ◌∙◌, Bool-cases, List, [], ◌∷◌,
  ◌++◌, append-nil,
}
use my_net.Common.Bags.{Bag, bag, put, bag-append_singleton, bag-middle}
use my_net.Condition.{resume}
use my_net.ThreadPool.{
  Pool, Ran, dropped, queued, blocked, Got, waits, nothing, task, stop, destroy, queue_task, run,
  run_again, take_task, get_task, get_task_again, wake_run, wake_worker, after_get,
}
use my_net.ThreadPool.Workers.{
  Workers, begin_worker, test_running, enter, enter_again, finish, WorkerStep, begins, tests,
  enters, enters_again, finishes, CallerStep, runs, runs_again, stops, destroys, wakes_run,
  wakes_worker, Steps, none_yet, by_worker, by_caller,
}

-- `run` queues a task, a worker takes one from the queue, and its call ends.
pub data Event (T : Type 0) : Type 0 where
  puts takes ends : T → Event T

-- The pool as its users see it.
pub record View (T : Type 0) : Type 0 where
  pub queue : List T
  pub called : Bag T
  pub executed : List T

module _ {T : Type 0} where
  abbrev run_events : T → Ran → List (Event T)
  run_events t queued = puts t ∷ []
  run_events t dropped = []
  run_events t blocked = []

  abbrev get_events : Got T → List (Event T)
  get_events waits = []
  get_events nothing = []
  get_events (task t) = takes t ∷ []

  abbrev worker_events : {w w' : Workers T} → WorkerStep w w' → List (Event T)
  worker_events (begins h) = []
  worker_events (tests h) = []
  worker_events (enters {w} h) = get_events (get_task w.pool).0
  worker_events (enters_again {w} h) = get_events (get_task_again w.pool).0
  worker_events (finishes before t after e) = ends t ∷ []

  abbrev caller_events : {p p' : Pool T} {s s' : List T} → CallerStep p s p' s' → List (Event T)
  caller_events (runs {p} t) = run_events t (run t p).0
  caller_events (runs_again {p} t h) = run_events t (run_again t p).0
  caller_events stops = []
  caller_events destroys = []
  caller_events (wakes_run h) = []
  caller_events (wakes_worker h) = []

  -- What a run shows, in order.
  abbrev pub events :
      {k : ℕ} {w w' : Workers T} {s s' : List T} → Steps k w s w' s' → List (Event T)
  events none_yet = []
  events (by_worker v t) = events v ++ worker_events t
  events (by_caller p s'' v t) = events v ++ caller_events t

  abbrev pub view : Workers T → View T
  view w = record { queue = w.pool.tasks; called = bag w.in_hand; executed = w.executed }

  -- What each event does to it: the queue is first in, first out, and only a task that is called ends.
  abbrev pub SpecStep : View T → Event T → View T → Type 0
  SpecStep u (puts t) v =
      (v.queue ≡ u.queue ++ (t ∷ [])) × (v.called ≡ u.called) × (v.executed ≡ u.executed)
  SpecStep u (takes t) v =
      (u.queue ≡ t ∷ v.queue) × (v.called ≡ put t u.called) × (v.executed ≡ u.executed)
  SpecStep u (ends t) v =
      (v.queue ≡ u.queue) × (u.called ≡ put t v.called) × (v.executed ≡ u.executed ++ (t ∷ []))

  pub data SpecRun (v : View T) : List (Event T) → View T → Type 0 where
    no_event : SpecRun v [] v
    one_event :
        {es : List (Event T)} {u u' : View T} (e : Event T)
        → SpecRun v es u
        → SpecStep u e u'
        → SpecRun v (es ++ (e ∷ [])) u'

  -- A step shows one event that the queue and the bag allow, or none and leaves them as they are.
  abbrev Shows : View T → List (Event T) → View T → Type 0
  Shows u es u' = ((es ≡ []) × (u' ≡ u)) ⊎ ((e : Event T) × (es ≡ e ∷ []) × SpecStep u e u')

  -- The view of a pool with the tasks that its workers call and those that are executed.
  abbrev seen : Pool T → List T → List T → View T
  seen p hand x = record { queue = p.tasks; called = bag hand; executed = x }

  take_task-Shows :
      (ts : List T) (p : Pool T) (hand x : List T)
      → p.tasks ≡ ts
      → Shows
          (seen p hand x)
          (get_events (take_task ts p).0)
          (seen (take_task ts p).1 (after_get (take_task ts p).0 hand) x)
  unfolding take_task
  take_task-Shows [] p hand x e = elim (Bool-cases p.running) [
    | inl r ↦ rw r (inl (refl, refl))
    | inr r ↦ rw r (inl (refl, refl))
  ]
  take_task-Shows (t ∷ ts) p hand x e = inr (takes t, refl, (e, bag-append_singleton t hand, refl))

  WorkerStep-Shows :
      {w w' : Workers T} (t : WorkerStep w w') → Shows (view w) (worker_events t) (view w')
  unfolding begin_worker test_running enter enter_again finish get_task get_task_again
  WorkerStep-Shows (begins h) = inl (refl, refl)
  WorkerStep-Shows (tests {w} h) = elim (Bool-cases w.pool.running) [
    | inl e ↦ rw e (inl (refl, refl))
    | inr e ↦ rw e (inl (refl, refl))
  ]
  WorkerStep-Shows (enters {w} h) = take_task-Shows w.pool.tasks w.pool w.in_hand w.executed refl
  WorkerStep-Shows (enters_again {w} h) =
      take_task-Shows w.pool.tasks (record w.pool { not_empty = resume w.pool.not_empty }) w.in_hand
        w.executed refl
  WorkerStep-Shows (finishes {w} before t after e) =
      inr (ends t, refl, (refl, ap bag e ∙ bag-middle t before after, refl))

  queue_task-Shows :
      (t : T) (p : Pool T) (hand x : List T)
      → Shows (seen p hand x) (run_events t (queue_task t p).0) (seen (queue_task t p).1 hand x)
  unfolding queue_task
  queue_task-Shows t p hand x = elim (Bool-cases (leb p.max_queue_size (length p.tasks))) [
    | inl e ↦ rw e (inl (refl, refl))
    | inr e ↦ rw e (inr (puts t, refl, (refl, refl, refl)))
  ]

  run-Shows :
      (t : T) (p : Pool T) (hand x : List T)
      → Shows (seen p hand x) (run_events t (run t p).0) (seen (run t p).1 hand x)
  unfolding run
  run-Shows t p hand x = elim (Bool-cases (p.threads == 0)) [
    | inl e ↦ rw e (inl (refl, refl))
    | inr e ↦ rw e (queue_task-Shows t p hand x)
  ]

  CallerStep-Shows :
      {p p' : Pool T} {s s' : List T} (hand x : List T) (c : CallerStep p s p' s')
      → Shows (seen p hand x) (caller_events c) (seen p' hand x)
  unfolding run_again stop destroy wake_run wake_worker
  CallerStep-Shows hand x (runs {p} t) = run-Shows t p hand x
  CallerStep-Shows hand x (runs_again {p} t h) =
      queue_task-Shows t (record p { not_full = resume p.not_full }) hand x
  CallerStep-Shows hand x stops = inl (refl, refl)
  CallerStep-Shows hand x (destroys {p}) = elim (Bool-cases p.running) [
    | inl e ↦ rw e (inl (refl, refl))
    | inr e ↦ rw e (inl (refl, refl))
  ]
  CallerStep-Shows hand x (wakes_run h) = inl (refl, refl)
  CallerStep-Shows hand x (wakes_worker h) = inl (refl, refl)

  SpecRun-Shows :
      {v u u' : View T} {es ds : List (Event T)}
      → SpecRun v es u
      → Shows u ds u'
      → SpecRun v (es ++ ds) u'
  SpecRun-Shows {v} {u} {u'} {es} {ds} r (inl (e, f)) =
      subst (λ (n : View T). SpecRun v (es ++ ds) n) (sym f)
        (subst (λ (d : List (Event T)). SpecRun v d u)
          (sym (ap (λ (d : List (Event T)). es ++ d) e ∙ append-nil es)) r)
  SpecRun-Shows {v} {u} {u'} {es} r (inr (e, f, h)) =
      subst (λ (d : List (Event T)). SpecRun v (es ++ d) u') (sym f) (one_event e r h)

  -- Between any two states of a pool, every sequence of steps of its workers and callers shows
  -- events, the tasks that `run` queues, those that workers take and the ends of their calls,
  -- and this sequence of events, in this order, is one of a queue that is first in, first out,
  -- a bag of called tasks and a list of executed ones: a task that is taken goes from the
  -- front of the queue to the bag, and one that ends goes from the bag to the end of the list;
  -- steps that show no event leave all three as they are.
  pub Steps-refines :
      {k : ℕ} {w w' : Workers T} {s s' : List T} (r : Steps k w s w' s')
      → SpecRun (view w) (events r) (view w')
  Steps-refines none_yet = no_event
  Steps-refines (by_worker v t) = SpecRun-Shows (Steps-refines v) (WorkerStep-Shows t)
  Steps-refines (by_caller {w'} p s'' v t) =
      SpecRun-Shows (Steps-refines v) (CallerStep-Shows w'.in_hand w'.executed t)

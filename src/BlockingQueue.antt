-- ===== src/BlockingQueue.antt =====
-- MyNet/base/BlockingQueue.h: the unbounded queue between threads.
pub mod Wakeup
use my_net.Common.{ℕ, suc, ◌<◌, ◌≡◌, Option, none, some, List, [], ◌∷◌, ◌++◌, length}
use my_net.Condition.{Condition, fresh, wait, notify, resume}

-- `m_deque` and `m_cond`; the mutex is held throughout a step.
pub record Queue (A : Type 0) : Type 0 where
  pub items : List A
  pub cond : Condition

module _ {A : Type 0} where
  abbrev pub init : Queue A
  init = record { items = []; cond = fresh }

  unfoldable pub put : A → Queue A → Queue A
  put x q = record q { items = q.items ++ x ∷ []; cond = notify q.cond }

  -- `get` from the test of its loop on: `none` if it waits, else the value that it returns.
  unfoldable pub take_front : List A → Queue A → Option A × Queue A
  take_front [] q = (none, record q { cond = wait q.cond })
  take_front (x ∷ xs) q = (some x, record q { items = xs })

  unfoldable pub get : Queue A → Option A × Queue A
  unfolding take_front
  get q = take_front q.items q

  -- A woken `get` goes back to the test of its loop.
  unfoldable pub get_again : Queue A → Option A × Queue A
  unfolding get
  get_again q = get (record q { cond = resume q.cond })

  -- A blocked `get` wakes by itself.
  unfoldable pub wake : Queue A → Queue A
  wake q = record q { cond = notify q.cond }

  unfoldable pub size : Queue A → ℕ
  size q = length q.items

  abbrev pub returned : Option A → List A → List A
  returned none got = got
  returned (some x) got = got ++ x ∷ []

  -- What any number of threads can do to a new queue, with the values put and got so far in order.
  pub data Trace : Queue A → List A → List A → Type 0 where
    start : Trace init [] []
    puts : {q : Queue A} {p g : List A} (x : A) → Trace q p g → Trace (put x q) (p ++ x ∷ []) g
    gets : {q : Queue A} {p g : List A} → Trace q p g → Trace (get q).1 p (returned (get q).0 g)
    resumes :
        {q : Queue A} {p g : List A}
        → Trace q p g
        → 0 < q.cond.woken
        → Trace (get_again q).1 p (returned (get_again q).0 g)
    spurious : {q : Queue A} {p g : List A} → Trace q p g → 0 < q.cond.waiting → Trace (wake q) p g

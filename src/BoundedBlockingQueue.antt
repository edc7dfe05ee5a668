-- ===== src/BoundedBlockingQueue.antt =====
-- MyNet/base/BoundedBlockingQueue.h: the bounded queue between threads. `boost::circular_buffer` is a
-- parameter, with what the code relies on as laws.
pub mod Wakeup
use my_net.Common.{
  ℕ, ◌+◌, ◌≤◌, ◌<◌, ◌==◌, ◌≡◌, if◌then◌else◌, not, Bool, true, false, Option, none, some, List, [],
  ◌∷◌, ◌++◌, length,
}
use my_net.Condition.{Condition, fresh, wait, notify, resume}

-- A ring as the list of its values, oldest first.
pub record CircularBuffer (A : Type 0) : Type 1 where
  pub Ring : Type 0
  pub make : ℕ → Ring
  pub full : Ring → Bool
  pub empty : Ring → Bool
  pub size : Ring → ℕ
  pub capacity : Ring → ℕ
  pub front : Ring → Option A
  pub push_back : A → Ring → Ring
  pub pop_front : Ring → Ring
  pub to_list : Ring → List A
  pub make_empty : (n : ℕ) → to_list (make n) ≡ []
  pub make_capacity : (n : ℕ) → capacity (make n) ≡ n
  pub full_is : (r : Ring) → full r ≡ (length (to_list r) == capacity r)
  pub empty_is : (r : Ring) → empty r ≡ (length (to_list r) == 0)
  pub size_is : (r : Ring) → size r ≡ length (to_list r)
  pub push_back_is :
      (x : A) (r : Ring)
      → full r ≡ false
      → (to_list (push_back x r) ≡ to_list r ++ x ∷ []) × (capacity (push_back x r) ≡ capacity r)
  pub pop_front_is :
      (x : A) (xs : List A) (r : Ring)
      → to_list r ≡ x ∷ xs
      → (front r ≡ some x) × (to_list (pop_front r) ≡ xs) × (capacity (pop_front r) ≡ capacity r)

module _ {A : Type 0} (lib : CircularBuffer A) where
  open lib use {Ring, full, empty, size, capacity, front, push_back, pop_front, make}

  -- `m_queue`, `m_full` and `m_empty`; the mutex is held throughout a step.
  pub record Queue : Type 0 where
    pub ring : Ring
    pub not_full : Condition
    pub not_empty : Condition

  abbrev pub init : ℕ → Queue
  init max_size = record { ring = make max_size; not_full = fresh; not_empty = fresh }

  -- `put` from the test of its loop on; true if it puts, false if it waits.
  unfoldable pub put : A → Queue → Bool × Queue
  put x q =
      if full q.ring
      then (false, record q { not_full = wait q.not_full })
      else (true, record q { ring = push_back x q.ring; not_empty = notify q.not_empty })

  -- `get` from the test of its loop on: `none` if it waits, else the value at the front.
  unfoldable pub get : Queue → Option A × Queue
  get q =
      if empty q.ring
      then (none, record q { not_empty = wait q.not_empty })
      else (front q.ring, record q { ring = pop_front q.ring; not_full = notify q.not_full })

  -- A woken thread goes back to the test of its loop; a blocked one wakes by itself.
  unfoldable pub put_again : A → Queue → Bool × Queue
  put_again x q = put x (record q { not_full = resume q.not_full })

  unfoldable pub get_again : Queue → Option A × Queue
  get_again q = get (record q { not_empty = resume q.not_empty })

  unfoldable pub wake_put : Queue → Queue
  wake_put q = record q { not_full = notify q.not_full }

  unfoldable pub wake_get : Queue → Queue
  wake_get q = record q { not_empty = notify q.not_empty }

  -- `bool capacity() const`: the number is cut down to a `bool`.
  unfoldable pub capacity_bool : Queue → Bool
  capacity_bool q = not (capacity q.ring == 0)

  unfoldable pub queue_size : Queue → ℕ
  queue_size q = size q.ring

  unfoldable pub queue_empty : Queue → Bool
  queue_empty q = empty q.ring

  abbrev pub after_put : A → Bool → List A → List A
  after_put x true p = p ++ x ∷ []
  after_put x false p = p

  abbrev pub after_get : Option A → List A → List A
  after_get none g = g
  after_get (some x) g = g ++ x ∷ []

  -- What any number of threads can do to a new queue, with the values put and got so far in order.
  pub data Trace (max_size : ℕ) : Queue → List A → List A → Type 0 where
    start : Trace max_size (init max_size) [] []
    puts :
        {q : Queue} {p g : List A} (x : A)
        → Trace max_size q p g
        → Trace max_size (put x q).1 (after_put x (put x q).0 p) g
    puts_again :
        {q : Queue} {p g : List A} (x : A)
        → Trace max_size q p g
        → 0 < q.not_full.woken
        → Trace max_size (put_again x q).1 (after_put x (put_again x q).0 p) g
    gets :
        {q : Queue} {p g : List A}
        → Trace max_size q p g
        → Trace max_size (get q).1 p (after_get (get q).0 g)
    gets_again :
        {q : Queue} {p g : List A}
        → Trace max_size q p g
        → 0 < q.not_empty.woken
        → Trace max_size (get_again q).1 p (after_get (get_again q).0 g)
    wakes_put :
        {q : Queue} {p g : List A}
        → Trace max_size q p g
        → 0 < q.not_full.waiting
        → Trace max_size (wake_put q) p g
    wakes_get :
        {q : Queue} {p g : List A}
        → Trace max_size q p g
        → 0 < q.not_empty.waiting
        → Trace max_size (wake_get q) p g

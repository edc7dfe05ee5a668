-- ===== src/Atomic/Counting.antt =====
-- MyNet/base/Atomic.h: what the operations of an `AtomicInt32` give and leave, in every order of the
-- threads.
use my_net.Common.{ℕ, ◌+◌, ◌-◌, ◌*◌, ◌%◌, ◌^◌, ◌<◌, ◌≡◌, refl, arith, List, [], ◌∷◌}
use my_net.Atomic.{get, get_and_set, add_and_get, get_and_add, inc, sub_and_get, dec}

abbrev pub width : ℕ
width = 2 ^ 32

-- The operations that count, as they follow each other in time.
pub data Op : Type 0 where
  add_op sub_op fetch_op : ℕ → Op
  inc_op dec_op get_op : Op

abbrev pub perform : Op → ℕ → ℕ
perform (add_op v) m = (add_and_get width v m).1
perform (sub_op v) m = (sub_and_get width v m).1
perform (fetch_op v) m = (get_and_add width v m).1
perform inc_op m = inc width m
perform dec_op m = dec width m
perform get_op m = (get width m).1

abbrev pub run : List Op → ℕ → ℕ
run [] m = m
run (op ∷ ops) m = run ops (perform op m)

-- What they add and take away in all, and that each amount is a value of the type.
abbrev pub gain : Op → ℕ
gain (add_op v) = v
gain (fetch_op v) = v
gain inc_op = 1
gain _ = 0

abbrev pub loss : Op → ℕ
loss (sub_op v) = v
loss dec_op = 1
loss _ = 0

abbrev pub gains : List Op → ℕ
gains [] = 0
gains (op ∷ ops) = gain op + gains ops

abbrev pub losses : List Op → ℕ
losses [] = 0
losses (op ∷ ops) = loss op + losses ops

abbrev pub AreValues : List Op → Type 0
AreValues [] = Unit {0}
AreValues (op ∷ ops) = ((gain op < width) × (loss op < width)) × AreValues ops

perform_lem :
    (op : Op) (m : ℕ)
    → m < width
    → loss op < width
    → perform op m ≡ (m + gain op + (width - 1) * loss op) % width
unfolding add_and_get sub_and_get get_and_add inc dec get
perform_lem (add_op v) m h k = omega arith
perform_lem (sub_op v) m h k = omega arith
perform_lem (fetch_op v) m h k = omega arith
perform_lem inc_op m h k = omega arith
perform_lem dec_op m h k = omega arith
perform_lem get_op m h k = ground arith

-- Any sequence of operations of an atomic integer of 32 bits that count, with amounts below 2 ^
-- 32, leaves the value that was there plus all that they add and minus all that they take away,
-- modulo 2 ^ 32, whatever their order.
pub run_lem :
    (ops : List Op) (m : ℕ)
    → m < width
    → AreValues ops
    → run ops m ≡ (m + gains ops + (width - 1) * losses ops) % width
run_lem [] m h v = omega arith
run_lem (op ∷ ops) m h v =
    let e = perform_lem op m h v.0.1 in
    let r = run_lem ops (perform op m) (omega arith) v.1 in omega arith

-- The values before.
pub get_and_add_lem :
    (v m : ℕ)
    → v < width
    → m < width
    → ((get width m).0 ≡ m)
      × ((get_and_add width v m).0 ≡ m)
      × ((get_and_set width v m).0 ≡ m)
      × (dec width (inc width m) ≡ m)
unfolding get get_and_set get_and_add add_and_get inc dec sub_and_get
get_and_add_lem v m h k = (refl, omega arith, refl, omega arith)

-- ===== src/Tests/Systems.antt =====
-- Examples for MyNet/base: Atomic.h, ThreadOp.h and Thread.cc.
use my_net.Common.{
  ℕ, ◌+◌, ◌-◌, ◌*◌, ◌%◌, ◌^◌, ◌<◌, ◌≡◌, sym, ap, ◌∙◌, arith, true, false, List, [], ◌∷◌, ◌++◌,
  length,
}
use my_net.Common.Int.{pos}
use my_net.Common.Word.{to_int32, of_int32}
use my_net.Thread.{Thread, joinable}
use my_net.Thread.Lifetime.{starts}
use my_net.Atomic.Counting.{Op, add_op, sub_op, inc_op, dec_op, run, run_lem, gains, losses, width}
use my_net.ThreadOp.Cached.{Run, loads, forks, Run-tid}
use my_net.ThreadOp.{ThreadLocals, tid, after_fork, initialize}
use my_net.LogStream.Numbers.{convert}
use my_net.LogStream.Decimal.{parse, parse-convert}

abbrev counting : List Op
counting = inc_op ∷ add_op 10 ∷ dec_op ∷ sub_op 20 ∷ []

run_example : run counting 5 ≡ (5 + gains counting + (width - 1) * losses counting) % width
run_example = run_lem counting 5 (omega arith) (
  (omega arith, omega arith),
  ((omega arith, omega arith), ((omega arith, omega arith), ((omega arith, omega arith), tt))),
)

-- A program that is loaded, and its child.
abbrev five : ℕ → List ℕ
five n = convert (pos n) ++ b' ' ∷ []

Run-tid_example :
    let t = after_fork five 43 (initialize five 42 my_net.ThreadOp.init) in
    ((tid five 43 t).0 ≡ 43)
    × ((tid five 43 t).1.tid_string ≡ five 43)
    × ((tid five 43 t).1.tid_string_length ≡ length (five 43))
Run-tid_example = Run-tid five (forks 43 (omega arith) (loads (Run.starts 42 (omega arith))))

-- "%d" of the bits of an `int`.
abbrev decimal : ℕ → List ℕ
decimal n = convert (to_int32 n)

of_int32-to_int32 : (n : ℕ) → n < 2 ^ 32 → of_int32 (to_int32 n) ≡ n
of_int32-to_int32 n h = ground arith

decimal-injective : (a b : ℕ) → a < 2 ^ 32 → b < 2 ^ 32 → decimal a ≡ decimal b → a ≡ b
decimal-injective a b h k e =
    let same = sym (parse-convert (to_int32 a)) ∙ ap parse e ∙ parse-convert (to_int32 b) in
    sym (of_int32-to_int32 a h) ∙ ap of_int32 same ∙ of_int32-to_int32 b k

-- A thread that is started and joined.
abbrev started : Thread
started = record { name = b'a' ∷ []; started = true; joined = false; pthread = joinable }

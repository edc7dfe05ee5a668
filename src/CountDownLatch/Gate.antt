-- ===== src/CountDownLatch/Gate.antt =====
-- MyNet/base/CountDownLatch.cc: nobody passes before the count is used up, and nobody stays blocked
-- after that.
use my_net.Common.{ℕ, suc, ◌+◌, ◌≤◌, ◌<◌, ◌≡◌, refl, ◌⊎◌, inl, arith, if◌then◌else◌}
use my_net.Common.Int.{pos, pos_part, neg_part, ◌-ℤ◌}
use my_net.Condition.{wait, notify, notify_all, resume}
use my_net.CountDownLatch.{
  Latch, wait_zero, wait_again, wake, count_down, Trace, start, waits, waits_again, wakes,
  counts_down,
}

record Inv (n : ℕ) (l : Latch) (done passed : ℕ) : Type 0 where
  counted : pos_part l.count + done ≡ n + neg_part l.count
  blocked : (l.cond.waiting ≡ 0) ⊎ (done < n)
  through : (passed ≡ 0) ⊎ (n ≤ done)

wait_zero-Inv :
    (n : ℕ) (l : Latch) (done passed : ℕ)
    → Inv n l done passed
    → Inv n (wait_zero l).1 done (if (wait_zero l).0 then suc passed else passed)
unfolding wait_zero wait
wait_zero-Inv n l done passed v = ground arith

count_down-Inv :
    (n : ℕ) (l : Latch) (done passed : ℕ)
    → Inv n l done passed
    → Inv n (count_down l) (suc done) passed
unfolding count_down notify_all ◌-ℤ◌
count_down-Inv n l done passed v = ground arith

Trace-Inv :
    {n : ℕ} {l : Latch} {done passed : ℕ} → Trace (pos n) l done passed → Inv n l done passed
unfolding wait_again wake notify resume
Trace-Inv start = record { counted = omega arith; blocked = inl refl; through = inl refl }
Trace-Inv {n} (waits {l} {done} {passed} t) = wait_zero-Inv n l done passed (Trace-Inv t)
Trace-Inv {n} (waits_again {l} {done} {passed} t h) =
    let v = Trace-Inv t in
    wait_zero-Inv n (record l { cond = resume l.cond }) done passed (ground arith)
Trace-Inv (wakes t h) = let v = Trace-Inv t in ground arith
Trace-Inv {n} (counts_down {l} {done} {passed} t) = count_down-Inv n l done passed (Trace-Inv t)

-- In every run on a latch made for n, a thread has come through `wait` only if `countDown` was
-- called n times, and once it was, no thread is blocked in `wait`.
pub Trace-gate :
    {n : ℕ} {l : Latch} {done passed : ℕ}
    → Trace (pos n) l done passed
    → (0 < passed → n ≤ done) × (n ≤ done → l.cond.waiting ≡ 0)
Trace-gate t = let v = Trace-Inv t in (λ h. ground arith, λ h. ground arith)

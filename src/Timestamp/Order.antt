-- ===== src/Timestamp/Order.antt =====
-- MyNet/base/Timestamp.h: a time is its seconds and microseconds, and is ordered by them.
use my_net.Common.{
  ℕ, ◌+◌, ◌*◌, ◌≤◌, ◌<◌, ◌≡◌, ◌↔◌, ◌⊎◌, ◌∙◌, refl, ap, arith, true, List, ◌∷◌, ◌++◌, length,
  length-append, take_all,
}
use my_net.Common.Int.{ℤ, pos, +ℤ_pos, scale_pos, quot_pos, rem}
use my_net.Timestamp.{now, secs_since_epoch, microseconds, less, to_string, micro_secs_per_second}

now_pos :
    (s u : ℕ)
    → now (pos s) (pos u) ≡ record { micro_secs_since_epoch = pos (micro_secs_per_second * s + u) }
unfolding now
now_pos s u = rw (scale_pos micro_secs_per_second s, +ℤ_pos (micro_secs_per_second * s) u) refl

pub secs_since_epoch-now :
    (s u : ℕ)
    → u < micro_secs_per_second
    → (secs_since_epoch (now (pos s) (pos u)) ≡ pos s)
      × (microseconds (now (pos s) (pos u)) ≡ pos u)
unfolding secs_since_epoch microseconds rem
secs_since_epoch-now s u h = rw (now_pos s u) (
  quot_pos (micro_secs_per_second * s + u) micro_secs_per_second (omega arith)
      ∙ ap pos (omega arith),
  ap pos (omega arith),
)

pub less-now :
    (s u s' u' : ℕ)
    → u < micro_secs_per_second
    → u' < micro_secs_per_second
    → (less (now (pos s) (pos u)) (now (pos s') (pos u')) ≡ true)
      ↔ ((s < s') ⊎ ((s ≡ s') × (u < u')))
unfolding less
less-now s u s' u' h k = rw (now_pos s u, now_pos s' u') (grind arith)

-- A whole time comes out where its second takes at most 23 characters.
pub to_string-now :
    (show six : ℤ → List ℕ) (s u : ℕ)
    → u < micro_secs_per_second
    → length (show (pos s)) ≤ 23
    → length (six (pos u)) ≡ 6
    → to_string show six (now (pos s) (pos u)) ≡ show (pos s) ++ (b'.' ∷ six (pos u))
unfolding to_string
to_string-now show six s u h k l =
    let (e, f) = secs_since_epoch-now s u h in
    rw (e, f)
      (take_all 30 (show (pos s) ++ (b'.' ∷ six (pos u)))
        (omega (arith, length-append (show (pos s)) (b'.' ∷ six (pos u)))))

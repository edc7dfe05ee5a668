-- ===== src/Tests/Objects.antt =====
-- Two threads of which the first has its object already.
use my_net.Common.{ℕ, ◌≡◌, ◌≢◌, refl, some, none, arith}
use my_net.Common.Outcome.{done}
use my_net.ThreadLocals.{
  LocalSingleton, set_slot, new_local, instance, set, leave_singleton, Trace, new, asks,
}
use my_net.ThreadLocals.Own.{Trace-instance}

abbrev asked : LocalSingleton
asked = record {
  t_value = set_slot 3 (some 0) (λ t. none);
  key = record new_local { specific = set_slot 3 (some 0) (λ t. none); made = 1 };
}

asked_run : Trace asked
unfolding instance set
asked_run = asks 3 0 asked new refl

Trace-instance_example :
    (a : ℕ) × (b : ℕ) × (s₁ : LocalSingleton) × (s₂ : LocalSingleton) × (instance 3 asked
      ≡ done (a, s₁))
    × (instance 4 s₁ ≡ done (b, s₂))
    × (a ≢ b)
    × (instance 3 s₂ ≡ done (a, s₂))
    × ((s₃ : LocalSingleton) × (leave_singleton 3 s₂ ≡ done s₃))
Trace-instance_example = Trace-instance asked_run 3 4 (omega arith)

-- ===== src/ThreadLocals/Own.antt =====
-- MyNet/base/ThreadLocalSingleton.h: every thread has an object of its own.
use my_net.Common.{
  ℕ, ◌+◌, ◌<◌, ◌==◌, ◌≡◌, ◌≢◌, ◌⊎◌, inl, inr, refl, sym, ap, ◌∙◌, subst, Bool-cases, true, Option,
  none, some, Option-cases, List, [], ◌∷◌, ◌++◌, arith,
}
use my_net.Common.Outcome.{done, done_inj}
use my_net.ThreadLocals.{
  Slots, set_slot, LocalSingleton, instance, set, leave_singleton, Trace, new, asks, leaves,
}

-- The key has what `m_t_value` has, objects were made before, and no two threads have the same one.
record Inv (s : LocalSingleton) : Type 0 where
  same : (t : ℕ) → s.key.specific t ≡ s.t_value t
  before : (t v : ℕ) → s.t_value t ≡ some v → v < s.key.made
  own : (t u v : ℕ) → s.t_value t ≡ some v → s.t_value u ≡ some v → t ≡ u

set_slot-same : (tid : ℕ) (v : Option ℕ) (slots : Slots) → set_slot tid v slots tid ≡ v
set_slot-same tid v slots = let e : (tid == tid) ≡ true = ground arith in rw e refl

-- What a thread has after another one, or it itself, has set its own.
set_slot-cases :
    (tid t : ℕ) (v : Option ℕ) (slots : Slots)
    → (t ≡ tid) × (set_slot tid v slots t ≡ v) ⊎ (t ≢ tid) × (set_slot tid v slots t ≡ slots t)
set_slot-cases tid t v slots = elim (Bool-cases (t == tid)) [
  | inl e ↦ inl (ground arith, rw e refl)
  | inr e ↦ inr (ground arith, rw e refl)
]

set_slot-same_slots :
    (tid : ℕ) (v : Option ℕ) (a b : Slots)
    → ((t : ℕ) → a t ≡ b t)
    → (t : ℕ) → set_slot tid v a t ≡ set_slot tid v b t
set_slot-same_slots tid v a b h t = elim (Bool-cases (t == tid)) [
  | inl e ↦ rw e refl
  | inr e ↦ rw e (h t)
]

some_inj : {a b : ℕ} {o : Option ℕ} → o ≡ some a → o ≡ some b → a ≡ b
some_inj e f = cc

none≢some : {a : ℕ} {o : Option ℕ} → o ≡ none → o ≡ some a → ⊥
none≢some e f = cc

-- The slot of a thread that has none is given a new object.
made-Inv :
    (tid : ℕ) (s : LocalSingleton)
    → Inv s
    → Inv (record {
      t_value = set_slot tid (some s.key.made) s.t_value;
      key = record s.key {
        specific = set_slot tid (some s.key.made) s.key.specific;
        made = s.key.made + 1;
      };
    })
made-Inv tid s v = record {
  same = set_slot-same_slots tid (some s.key.made) s.key.specific s.t_value v.same;
  before = λ t w e. elim (set_slot-cases tid t (some s.key.made) s.t_value) [
    | inl (_, q) ↦ (let same : s.key.made ≡ w = some_inj q e in omega arith)
    | inr (_, q) ↦ (let b = v.before t w (sym q ∙ e) in omega arith)
  ];
  own = λ t u w e f. elim (set_slot-cases tid t (some s.key.made) s.t_value) [
    | inl (a, q) ↦ elim (set_slot-cases tid u (some s.key.made) s.t_value) [
      | inl (b, _) ↦ omega arith
      | inr (_, r) ↦ absurd (
          let same : s.key.made ≡ w = some_inj q e in
          let b = v.before u w (sym r ∙ f) in omega arith)
    ]
    | inr (_, q) ↦ elim (set_slot-cases tid u (some s.key.made) s.t_value) [
      | inl (_, r) ↦ absurd (
          let same : s.key.made ≡ w = some_inj r f in
          let b = v.before t w (sym q ∙ e) in omega arith)
      | inr (_, r) ↦ v.own t u w (sym q ∙ e) (sym r ∙ f)
    ]
  ];
}

-- The slot of a thread that ends is empty.
left-Inv :
    (tid : ℕ) (s : LocalSingleton) (specific : Slots) (deleted : List ℕ)
    → ((t : ℕ) → specific t ≡ set_slot tid none s.key.specific t)
    → Inv s
    → Inv (record {
      t_value = set_slot tid none s.t_value;
      key = record s.key { specific = specific; deleted = deleted };
    })
left-Inv tid s specific deleted h v = record {
  same = λ t. h t ∙ set_slot-same_slots tid none s.key.specific s.t_value v.same t;
  before = λ t w e. elim (set_slot-cases tid t none s.t_value) [
    | inl (_, q) ↦ absurd (none≢some q e)
    | inr (_, q) ↦ v.before t w (sym q ∙ e)
  ];
  own = λ t u w e f. elim (set_slot-cases tid t none s.t_value) [
    | inl (_, q) ↦ absurd (none≢some q e)
    | inr (_, q) ↦ elim (set_slot-cases tid u none s.t_value) [
      | inl (_, r) ↦ absurd (none≢some r f)
      | inr (_, r) ↦ v.own t u w (sym q ∙ e) (sym r ∙ f)
    ]
  ];
}

-- `instance` gives the thread's object, and makes it if there is none.
instance-Inv :
    (tid : ℕ) (s : LocalSingleton)
    → Inv s
    → (obj : ℕ) × (s' : LocalSingleton) × (instance tid s ≡ done (obj, s'))
      × Inv s'
      × (s'.t_value tid ≡ some obj)
unfolding instance set
instance-Inv tid s v = elim (Option-cases (s.t_value tid)) [
  | inl e ↦
      let free : s.key.specific tid ≡ none = v.same tid ∙ e in
      (
        s.key.made,
        _,
        rw (e, free) refl,
        made-Inv tid s v,
        set_slot-same tid (some s.key.made) s.t_value,
      )
  | inr (obj, e) ↦ (obj, s, rw e refl, v, e)
]

-- The destructor finds the object that the thread has.
leave-Inv :
    (tid : ℕ) (s : LocalSingleton)
    → Inv s
    → (s' : LocalSingleton) × (leave_singleton tid s ≡ done s') × Inv s'
unfolding leave_singleton
leave-Inv tid s v = elim (Option-cases (s.key.specific tid)) [
  | inl e ↦ (
    _,
    rw e refl,
    left-Inv tid s s.key.specific s.key.deleted
        (λ t. elim (set_slot-cases tid t none s.key.specific) [
          | inl (a, q) ↦ ap s.key.specific a ∙ e ∙ sym q
          | inr (_, q) ↦ sym q
        ])
        v,
  )
  | inr (obj, e) ↦
      let mine : s.t_value tid ≡ some obj = sym (v.same tid) ∙ e in
      let equal : (obj == obj) ≡ true = ground arith in
      (
        _,
        rw (e, mine, equal) refl,
        left-Inv tid s (set_slot tid none s.key.specific) (s.key.deleted ++ (obj ∷ [])) (λ t. refl)
            v,
      )
]

Trace-Inv : {s : LocalSingleton} → Trace s → Inv s
Trace-Inv new = record {
  same = λ t. refl;
  before = λ t w e. absurd cc;
  own = λ t u w e f. absurd cc;
}
Trace-Inv (asks {s} tid obj s' t q) =
    let (obj', s₁, e, v, _) = instance-Inv tid s (Trace-Inv t) in
    subst (λ (r : ℕ × LocalSingleton). Inv r.1) (done_inj e q) v
Trace-Inv (leaves {s} tid s' t q) =
    let (s₁, e, v) = leave-Inv tid s (Trace-Inv t) in subst Inv (done_inj e q) v

instance_again :
    (tid obj : ℕ) (s : LocalSingleton) → s.t_value tid ≡ some obj → instance tid s ≡ done (obj, s)
unfolding instance
instance_again tid obj s e = rw e refl

-- Another thread's `instance` leaves a thread its object.
instance-others :
    (tid other obj : ℕ) (s s' : LocalSingleton)
    → other ≢ tid
    → instance tid s ≡ done (obj, s')
    → Inv s
    → s'.t_value other ≡ s.t_value other
unfolding instance set
instance-others tid other obj s s' n q v = elim (Option-cases (s.t_value tid)) [
  | inl e ↦
      let free : s.key.specific tid ≡ none = v.same tid ∙ e in
      let made : instance tid s
          ≡ done (
            s.key.made,
            record {
              t_value = set_slot tid (some s.key.made) s.t_value;
              key = record s.key {
                specific = set_slot tid (some s.key.made) s.key.specific;
                made = s.key.made + 1;
              };
            },
          ) =
        rw (e, free) refl in
      ap (λ (r : ℕ × LocalSingleton). r.1.t_value other) (sym (done_inj made q))
      ∙ elim (set_slot-cases tid other (some s.key.made) s.t_value) [
        | inl (a, _) ↦ absurd (n a)
        | inr (_, r) ↦ r
      ]
  | inr (o, e) ↦
      ap (λ (r : ℕ × LocalSingleton). r.1.t_value other)
        (sym (done_inj (instance_again tid o s e) q))
]

-- In every run of threads that ask for the object of a thread-local singleton and end, two
-- threads are given different objects, a thread is given the same one again after another has
-- asked, and neither the assertion of the key nor that of the destructor fails.
pub Trace-instance :
    {s : LocalSingleton}
    → Trace s
    → (t u : ℕ) → t ≢ u
    → (a : ℕ) × (b : ℕ) × (s₁ : LocalSingleton) × (s₂ : LocalSingleton) × (instance t s
        ≡ done (a, s₁))
      × (instance u s₁ ≡ done (b, s₂))
      × (a ≢ b)
      × (instance t s₂ ≡ done (a, s₂))
      × ((s₃ : LocalSingleton) × (leave_singleton t s₂ ≡ done s₃))
Trace-instance {s} r t u n =
    let (a, s₁, e, v, has) = instance-Inv t s (Trace-Inv r) in
    let (b, s₂, e', v', has') = instance-Inv u s₁ v in
    let kept : s₂.t_value t ≡ some a = instance-others u t b s₁ s₂ n e' v ∙ has in
    let (s₃, e'', _) = leave-Inv t s₂ v' in
    (
      a,
      b,
      s₁,
      s₂,
      e,
      e',
      λ q. n (v'.own t u a kept (has' ∙ ap some (sym q))),
      instance_again t a s₂ kept,
      (s₃, e''),
    )

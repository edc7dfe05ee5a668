-- ===== src/ThreadLocals.antt =====
-- MyNet/base/Singleton.h, ThreadLocal.h and ThreadLocalSingleton.h: objects that are made once for the
-- program, or once for each thread. An object is the number of its `new`; threads are numbered. The
-- thread that leaves has its destructors called with what it has set.
pub mod Own
use my_net.Common.{
  ℕ, ◌+◌, ◌==◌, ◌≡◌, if◌then◌else◌, Bool, true, false, Option, none, some, List, [], ◌∷◌, ◌++◌,
}
use my_net.Common.Outcome.{Outcome, done, check, ◌>>=◌, ◌>>◌}

-- What each thread has.
abbrev pub Slots : Type 0
Slots = ℕ → Option ℕ

abbrev pub set_slot : ℕ → Option ℕ → Slots → Slots
set_slot tid v slots = λ t. if t == tid then v else slots t

-- `ThreadLocal`: the values of its key, how many objects were made, and those that were deleted.
pub record Local : Type 0 where
  pub specific : Slots
  pub made : ℕ
  pub deleted : List ℕ

abbrev pub new_local : Local
new_local = record { specific = λ t. none; made = 0; deleted = [] }

abbrev pub value_of : Option ℕ → ℕ → Local → ℕ × Local
value_of none tid l =
    (l.made, record l { specific = set_slot tid (some l.made) l.specific; made = l.made + 1 })
value_of (some v) tid l = (v, l)

unfoldable pub value : ℕ → Local → ℕ × Local
value tid l = value_of (l.specific tid) tid l

-- The key's destructor, which is called for a value that is set.
abbrev pub destructor_of : Option ℕ → ℕ → Local → Local
destructor_of none tid l = l
destructor_of (some v) tid l = record l {
  specific = set_slot tid none l.specific;
  deleted = l.deleted ++ (v ∷ []);
}

unfoldable pub leave : ℕ → Local → Local
leave tid l = destructor_of (l.specific tid) tid l

-- `ThreadLocalSingleton`: `m_t_value` of each thread, and its key as above.
pub record LocalSingleton : Type 0 where
  pub t_value : Slots
  pub key : Local

abbrev pub new_local_singleton : LocalSingleton
new_local_singleton = record { t_value = λ t. none; key = new_local }

abbrev pub is_none : Option ℕ → Bool
is_none none = true
is_none (some v) = false

abbrev pub is_some_of : ℕ → Option ℕ → Bool
is_some_of v none = false
is_some_of v (some w) = v == w

-- `m_deleter.set`: no value may be set yet.
unfoldable pub set : ℕ → ℕ → Local → Outcome Local
set obj tid l =
    check (is_none (l.specific tid))
    >> done (record l { specific = set_slot tid (some obj) l.specific })

abbrev pub instance_of : Option ℕ → ℕ → LocalSingleton → Outcome (ℕ × LocalSingleton)
instance_of none tid s = set s.key.made tid (record s.key { made = s.key.made + 1 }) >>= λ key.
    done (s.key.made, record { t_value = set_slot tid (some s.key.made) s.t_value; key = key })
instance_of (some v) tid s = done (v, s)

unfoldable pub instance : ℕ → LocalSingleton → Outcome (ℕ × LocalSingleton)
unfolding set
instance tid s = instance_of (s.t_value tid) tid s

unfoldable pub pointer : ℕ → LocalSingleton → Option ℕ
pointer tid s = s.t_value tid

-- `destructor` of the value that a thread leaves.
abbrev pub destroyed : Option ℕ → ℕ → LocalSingleton → Outcome LocalSingleton
destroyed none tid s = done (record s { t_value = set_slot tid none s.t_value })
destroyed (some obj) tid s =
    check (is_some_of obj (s.t_value tid))
    >> done (record {
      t_value = set_slot tid none s.t_value;
      key = record s.key {
        specific = set_slot tid none s.key.specific;
        deleted = s.key.deleted ++ (obj ∷ []);
      };
    })

unfoldable pub leave_singleton : ℕ → LocalSingleton → Outcome LocalSingleton
leave_singleton tid s = destroyed (s.key.specific tid) tid s

-- `Singleton`: whether `pthread_once` has run, and the object. The calls of one program come one after the other.
pub record Singleton : Type 0 where
  pub once : Bool
  pub object : Option ℕ
  pub made : ℕ
  pub deleted : List ℕ

abbrev pub new_singleton : Singleton
new_singleton = record { once = false; object = none; made = 0; deleted = [] }

unfoldable pub init_singleton : Singleton → Singleton
init_singleton s = record s { object = some s.made; made = s.made + 1 }

unfoldable pub singleton_instance : Singleton → Option ℕ × Singleton
unfolding init_singleton
singleton_instance s =
    let s' = if s.once then s else record (init_singleton s) { once = true } in (s'.object, s')

abbrev pub deleted_of : Option ℕ → List ℕ
deleted_of none = []
deleted_of (some obj) = obj ∷ []

-- At the end of the program
unfoldable pub destroy_singleton : Singleton → Singleton
destroy_singleton s = record s { deleted = s.deleted ++ deleted_of s.object }

-- Threads that ask for the object, and that end.
pub data Trace : LocalSingleton → Type 0 where
  new : Trace new_local_singleton
  asks :
      {s : LocalSingleton} (tid obj : ℕ) (s' : LocalSingleton)
      → Trace s
      → instance tid s ≡ done (obj, s')
      → Trace s'
  leaves :
      {s : LocalSingleton} (tid : ℕ) (s' : LocalSingleton)
      → Trace s
      → leave_singleton tid s ≡ done s'
      → Trace s'

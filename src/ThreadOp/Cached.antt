-- ===== src/ThreadOp/Cached.antt =====
-- MyNet/base/Thread.cc: the number of a thread that is kept is the kernel's, also after a `fork`.
use my_net.Common.{ℕ, ◌<◌, ◌≡◌, ◌⊎◌, inl, inr, refl, arith, ◌==◌, false, List, length}
use my_net.ThreadOp.{ThreadLocals, init, tid, after_fork, initialize, main_name}

module _ (five : ℕ → List ℕ) where
  -- A thread and the number that the kernel has for it: it asks for its number, or it goes on as the only
  -- thread of a child.
  pub data Run : ℕ → ThreadLocals → Type 0 where
    starts : (n : ℕ) → 0 < n → Run n init
    loads : {n : ℕ} {t : ThreadLocals} → Run n t → Run n (initialize five n t)
    asks : {n : ℕ} {t : ThreadLocals} → Run n t → Run n (tid five n t).1
    names :
        {n : ℕ} {t : ThreadLocals} (name : List ℕ)
        → Run n t
        → Run n (record t { thread_name = name })
    forks :
        {n : ℕ} {t : ThreadLocals} (child : ℕ)
        → 0 < child
        → Run n t
        → Run child (after_fork five child t)

  -- Nothing is kept, or the kernel's number and its text.
  record IsCached (n : ℕ) (t : ThreadLocals) : Type 0 where
    number : t.cached_tid ≡ n
    its_text : t.tid_string ≡ five n
    its_length : t.tid_string_length ≡ length (five n)

  abbrev Invariant : ℕ → ThreadLocals → Type 0
  Invariant n t = (0 < n) × ((t.cached_tid ≡ 0) ⊎ IsCached n t)

  tid-IsCached : (n : ℕ) (t : ThreadLocals) → Invariant n t → IsCached n (tid five n t).1
  unfolding tid
  tid-IsCached n t (p, inl z) = rw z (record { number = refl; its_text = refl; its_length = refl })
  tid-IsCached n t (p, inr c) =
      let nonzero : (t.cached_tid == 0) ≡ false = (let e = c.number in ground arith) in rw nonzero c

  renamed :
      (n : ℕ) {t : ThreadLocals} (name : List ℕ)
      → (t.cached_tid ≡ 0) ⊎ IsCached n t
      → (t.cached_tid ≡ 0) ⊎ IsCached n (record t { thread_name = name })
  renamed n name (inl z) = inl z
  renamed n name (inr c) =
      inr (record { number = c.number; its_text = c.its_text; its_length = c.its_length })

  Run-Invariant : {n : ℕ} {t : ThreadLocals} → Run n t → Invariant n t
  unfolding initialize after_fork
  Run-Invariant (starts n p) = (p, inl refl)
  Run-Invariant (loads {n} {t} r) =
      let v = Run-Invariant r in
      (
        v.0,
        inr (tid-IsCached n (record t { thread_name = main_name }) (v.0, renamed n main_name v.1)),
      )
  Run-Invariant (asks {n} {t} r) = let v = Run-Invariant r in (v.0, inr (tid-IsCached n t v))
  Run-Invariant (names {n} {t} name r) = let v = Run-Invariant r in (v.0, renamed n name v.1)
  Run-Invariant (forks {n} {t} child p r) = (
    p,
    inr (tid-IsCached child (record t { cached_tid = 0; thread_name = main_name }) (p, inl refl)),
  )

  -- In every run of a thread that loads the library, asks for its number, takes names and goes
  -- on in the children of `fork`, `tid` gives the number that the kernel has for it now, and
  -- the text and the length that it keeps are those of this number.
  pub Run-tid :
      {n : ℕ} {t : ThreadLocals}
      → Run n t
      → ((tid five n t).0 ≡ n)
        × ((tid five n t).1.tid_string ≡ five n)
        × ((tid five n t).1.tid_string_length ≡ length (five n))
  unfolding tid
  Run-tid {n} {t} r =
      let c = tid-IsCached n t (Run-Invariant r) in (c.number, c.its_text, c.its_length)

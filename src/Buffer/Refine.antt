-- ===== src/Buffer/Refine.antt =====
-- MyNet/net/Buffer.h: a valid buffer behaves as the queue of its readable bytes.
use my_net.Common.{
  ℕ, ◌+◌, ◌-◌, ◌≤◌, ◌<◌, ◌≡◌, refl, sym, ap, ◌∙◌, ◌⊎◌, inl, inr, List, [], ◌∷◌, length, take,
  take_all, take-slice, drop_all, arith, dec_lt,
}
use my_net.Common.Word.{max_size}
use my_net.Common.Outcome.{Outcome, Fault, done, fault, assertion, ◌>>=◌}
use my_net.Buffer.{
  Buffer, readable_bytes, retrieve, retrieve_all, retrieve_as_string, retrieve_all_as_string,
  unwrite,
}
use my_net.Buffer.Valid.{IsValid, contents, length-contents}
use my_net.Buffer.Stream.{append_lem, retrieve_lem, retrieve-fault, unwrite_lem}
use my_net.Buffer.Queue.{
  Op, put, skip, skip_all, get, get_all, take_back, step, run, spec_step, spec_run,
}

-- How many bytes a call may add to the storage.
abbrev pub cost : Op → ℕ
cost (put src) = length src
cost (skip n) = 0
cost skip_all = 0
cost (get n) = 0
cost get_all = 0
cost (take_back n) = 0

abbrev pub total_cost : List Op → ℕ
total_cost [] = 0
total_cost (op ∷ ops) = cost op + total_cost ops

record Succeeds (op : Op) (b : Buffer) (out : List ℕ) (b' : Buffer) : Type 0 where
  does : step op b ≡ done (out, b')
  spec : spec_step op (contents b) ≡ done (out, contents b')
  valid : IsValid b'
  size : length b'.bytes ≤ length b.bytes + cost op

record Fails (op : Op) (b : Buffer) (e : Fault) : Type 0 where
  does : step op b ≡ fault e
  spec : spec_step op (contents b) ≡ fault e

StepCases : Op → Buffer → Type 0
StepCases op b =
    ((out : List ℕ) × (b' : Buffer) × Succeeds op b out b') ⊎ ((e : Fault) × Fails op b e)

-- The string that is read is the head of the readable bytes.
retrieve_as_string_lem :
    (n : ℕ) (b b' : Buffer)
    → IsValid b
    → n ≤ length (contents b)
    → retrieve n b ≡ done b'
    → retrieve_as_string n b ≡ done (take n (contents b), b')
unfolding retrieve_as_string
retrieve_as_string_lem n b b' v h e =
    let size = length-contents b v in
    ground (arith, take-slice n b.reader (b.writer - b.reader) b.bytes)

get-Succeeds :
    (n : ℕ) (b : Buffer)
    → IsValid b
    → n ≤ length (contents b)
    → (b' : Buffer) × Succeeds (get n) b (take n (contents b)) b'
unfolding step spec_step
get-Succeeds n b v h =
    let (b', e, v', c, l) = retrieve_lem n b v h in
    (
      b',
      record {
        does = retrieve_as_string_lem n b b' v h e;
        spec = ground arith;
        valid = v';
        size = omega arith;
      },
    )

get_all-Succeeds : (b : Buffer) → IsValid b → (b' : Buffer) × Succeeds get_all b (contents b) b'
unfolding step spec_step retrieve_all_as_string
get_all-Succeeds b v =
    let size = length-contents b v in
    let n = readable_bytes b in
    let (b', e, v', c, l) = retrieve_lem n b v (omega arith) in
    let whole = take_all n (contents b) (omega arith) in
    let nothing = drop_all n (contents b) (omega arith) in
    (
      b',
      record {
        does =
            retrieve_as_string_lem n b b' v (omega arith) e
            ∙ ap (λ (t : List ℕ). done (t, b')) whole;
        spec = ap (λ (t : List ℕ). done (contents b, t)) (sym (c ∙ nothing));
        valid = v';
        size = omega arith;
      },
    )

-- `n` bytes are asked of a queue that holds fewer.
short :
    (n : ℕ) (b : Buffer)
    → IsValid b
    → length (contents b) < n
    → (retrieve_as_string n b ≡ fault assertion)
      × (retrieve n b ≡ fault assertion)
      × (unwrite n b ≡ fault assertion)
unfolding retrieve_as_string unwrite
short n b v h =
    let size = length-contents b v in (ground arith, retrieve-fault n b v h, ground arith)

step-cases :
    (op : Op) (b : Buffer) → IsValid b → length b.bytes + cost op ≤ max_size → StepCases op b
unfolding StepCases step spec_step retrieve_all
step-cases (put src) b v k =
    let (b', e, v', c, l) = append_lem src b v (omega arith) in
    inl ([], b', record { does = rw e; spec = rw c; valid = v'; size = l })
step-cases (skip n) b v k = elim (dec_lt (length (contents b)) n) [
  | yes p ↦ inr (assertion, record { does = rw (short n b v p).1; spec = ground arith })
  | no p ↦
      let (b', e, v', c, l) = retrieve_lem n b v (omega arith) in
      inl ([], b', record { does = rw e; spec = ground arith; valid = v'; size = omega arith })
]
step-cases skip_all b v k = inl (
  [],
  retrieve_all b,
  record { does = refl; spec = refl; valid = omega arith; size = omega arith },
)
step-cases (get n) b v k = elim (dec_lt (length (contents b)) n) [
  | yes p ↦ inr (assertion, record { does = (short n b v p).0; spec = ground arith })
  | no p ↦ let (b', s) = get-Succeeds n b v (omega arith) in inl (take n (contents b), b', s)
]
step-cases get_all b v k = let (b', s) = get_all-Succeeds b v in inl (contents b, b', s)
step-cases (take_back n) b v k = elim (dec_lt (length (contents b)) n) [
  | yes p ↦ inr (assertion, record { does = rw (short n b v p).2; spec = ground arith })
  | no p ↦
      let (b', e, v', c, l) = unwrite_lem n b v (omega arith) in
      inl ([], b', record { does = rw e; spec = ground arith; valid = v'; size = omega arith })
]

-- What a client sees of a result: the bytes read, and the bytes that are left.
abbrev pub view {ℓ} : {A : Type ℓ} → Outcome (A × Buffer) → Outcome (A × List ℕ)
view m = m >>= λ (out, b). done (out, contents b)

view-cons :
    (out : List ℕ) (m : Outcome (List (List ℕ) × Buffer))
    → view (m >>= λ (outs, b). done (out ∷ outs, b))
      ≡ (view m >>= λ (outs, q). done (out ∷ outs, q))
view-cons out (done (outs, b)) = refl
view-cons out (fault e) = refl

-- On a valid buffer whose storage may grow by all that the calls write, any sequence of append,
-- retrieve, retrieveAll, retrieveAsString, retrieveAllAsString and unwrite returns the same
-- bytes, leaves the same readable bytes and fails at the same call as the same calls on a queue
-- of bytes.
pub run_refines :
    (ops : List Op) (b : Buffer)
    → IsValid b
    → length b.bytes + total_cost ops ≤ max_size
    → view (run ops b) ≡ spec_run ops (contents b)
unfolding run spec_run StepCases
run_refines [] b v k = refl
run_refines (op ∷ ops) b v k = elim (step-cases op b v (omega arith)) [
  | inl (out, b', s) ↦
      let ih = run_refines ops b' s.valid (omega (arith, s.size)) in
      rw (s.does, s.spec, ← ih) (view-cons out (run ops b'))
  | inr (e, f) ↦ rw (f.does, f.spec)
]

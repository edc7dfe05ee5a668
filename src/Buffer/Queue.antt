-- ===== src/Buffer/Queue.antt =====
-- What MyNet/net/Buffer.h promises of its readable bytes: a queue of bytes, which also gives back
-- what was written last. And the calls of the buffer, for sequences of them.
use my_net.Common.{ℕ, ◌-◌, leb, List, [], ◌∷◌, ◌++◌, length, take, drop}
use my_net.Common.Outcome.{Outcome, done, check, ◌>>=◌, ◌>>◌}
use my_net.Buffer.{
  Buffer, append, retrieve, retrieve_all, retrieve_as_string, retrieve_all_as_string, unwrite,
}

pub data Op : Type 0 where
  put : List ℕ → Op
  skip : ℕ → Op
  skip_all : Op
  get : ℕ → Op
  get_all : Op
  take_back : ℕ → Op

-- The calls: each returns the bytes that it reads, if any.
unfoldable pub step : Op → Buffer → Outcome (List ℕ × Buffer)
step (put src) b = append src b >>= λ b'. done ([], b')
step (skip n) b = retrieve n b >>= λ b'. done ([], b')
step skip_all b = done ([], retrieve_all b)
step (get n) b = retrieve_as_string n b
step get_all b = retrieve_all_as_string b
step (take_back n) b = unwrite n b >>= λ b'. done ([], b')

unfoldable pub run : List Op → Buffer → Outcome (List (List ℕ) × Buffer)
run [] b = done ([], b)
run (op ∷ ops) b = step op b >>= λ (out, b'). run ops b' >>= λ (outs, b''). done (out ∷ outs, b'')

-- The same calls on a queue of bytes.
unfoldable pub spec_step : Op → List ℕ → Outcome (List ℕ × List ℕ)
spec_step (put src) q = done ([], q ++ src)
spec_step (skip n) q = do check (leb n (length q)); done ([], drop n q)
spec_step skip_all q = done ([], [])
spec_step (get n) q = do check (leb n (length q)); done (take n q, drop n q)
spec_step get_all q = done (q, [])
spec_step (take_back n) q = do check (leb n (length q)); done ([], take (length q - n) q)

unfoldable pub spec_run : List Op → List ℕ → Outcome (List (List ℕ) × List ℕ)
spec_run [] q = done ([], q)
spec_run (op ∷ ops) q =
    spec_step op q >>= λ (out, q'). spec_run ops q' >>= λ (outs, q''). done (out ∷ outs, q'')

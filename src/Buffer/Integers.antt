-- ===== src/Buffer/Integers.antt =====
-- MyNet/net/Buffer.h: integers in network order, of `n` bytes (8, 4, 2 or 1; a single byte has no
-- order to convert).
use my_net.Common.{ℕ, leb}
use my_net.Common.Outcome.{Outcome, done, check, ◌>>=◌, ◌>>◌}
use my_net.Endian.{Host, memory, from_memory, host_to_network, network_to_host}
use my_net.Buffer.{Buffer, readable_bytes, peek, append, prepend, retrieve}

module _ (h : Host) (n : ℕ) where
  unfoldable pub append_int : ℕ → Buffer → Outcome Buffer
  append_int x b = append (memory h n (host_to_network h n x)) b

  unfoldable pub prepend_int : ℕ → Buffer → Outcome Buffer
  prepend_int x b = prepend (memory h n (host_to_network h n x)) b

  unfoldable pub peek_int : Buffer → Outcome ℕ
  peek_int b = do
    check (leb n (readable_bytes b))
    done (network_to_host h n (from_memory h (peek n b)))

  unfoldable pub retrieve_int : Buffer → Outcome Buffer
  retrieve_int b = retrieve n b

  unfoldable pub read_int : Buffer → Outcome (ℕ × Buffer)
  unfolding peek_int retrieve_int
  read_int b = do result ← peek_int b; b' ← retrieve_int b; done (result, b')

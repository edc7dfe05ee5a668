-- ===== src/Endian.antt =====
-- MyNet/net/Endian.h: the byte order of the integers on the wire. `htobe16` to `htobe64` and their
-- inverses are those of <endian.h>; the host's own order is an argument. An integer of `n` bytes is
-- its bit pattern, a number below 256 ^ n, so that the signed types need no case of their own.
pub mod Wire
use my_net.Common.{ℕ, zero, suc, ◌+◌, ◌*◌, ◌/◌, ◌%◌, List, [], ◌∷◌, reverse}

pub data Host : Type 0 where
  little big : Host

unfoldable pub le_bytes : ℕ → ℕ → List ℕ
le_bytes zero x = []
le_bytes (suc n) x = (x % 256) ∷ le_bytes n (x / 256)

unfoldable pub le_value : List ℕ → ℕ
le_value [] = 0
le_value (b ∷ bs) = b + 256 * le_value bs

-- The bytes in memory of an integer of `n` bytes, and the integer of some bytes: `memcpy`.
unfoldable pub memory : Host → ℕ → ℕ → List ℕ
memory little n x = le_bytes n x
memory big n x = reverse (le_bytes n x)

unfoldable pub from_memory : Host → List ℕ → ℕ
from_memory little bs = le_value bs
from_memory big bs = le_value (reverse bs)

-- `htobe` and `betoh` for an integer of `n` bytes.
unfoldable pub swap_bytes : ℕ → ℕ → ℕ
unfolding le_value le_bytes
swap_bytes n x = le_value (reverse (le_bytes n x))

unfoldable pub host_to_network : Host → ℕ → ℕ → ℕ
unfolding swap_bytes
host_to_network little n x = swap_bytes n x
host_to_network big n x = x

unfoldable pub network_to_host : Host → ℕ → ℕ → ℕ
unfolding swap_bytes
network_to_host little n x = swap_bytes n x
network_to_host big n x = x

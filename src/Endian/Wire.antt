-- ===== src/Endian/Wire.antt =====
-- Integers in network order, whatever the host's own order is.
use my_net.Common.{
  ℕ, zero, suc, ◌+◌, ◌*◌, ◌/◌, ◌%◌, ◌^◌, ◌<◌, ◌≡◌, refl, sym, ap, subst, ◌∙◌, List, [], ◌∷◌, ◌++◌,
  reverse, length, length-reverse, arith,
}
use mathlib.Core.List.{reverse-reverse, reverse-append}
use native.Mathlib.Nat.{pow-suc}
use my_net.Endian.{
  Host, little, big, le_bytes, le_value, memory, from_memory, swap_bytes, host_to_network,
  network_to_host,
}

-- The `n` bytes of a number, the most significant one first.
abbrev pub wire : ℕ → ℕ → List ℕ
wire n x = reverse (le_bytes n x)

abbrev AreBytes : List ℕ → Type 0
AreBytes [] = Unit {0}
AreBytes (b ∷ bs) = (b < 256) × AreBytes bs

AreBytes-append : (xs ys : List ℕ) → AreBytes xs → AreBytes ys → AreBytes (xs ++ ys)
AreBytes-append [] ys h k = k
AreBytes-append (x ∷ xs) ys h k = (h.0, AreBytes-append xs ys h.1 k)

AreBytes-reverse : (xs : List ℕ) → AreBytes xs → AreBytes (reverse xs)
AreBytes-reverse [] h = tt
AreBytes-reverse (x ∷ xs) h =
    subst AreBytes (sym (reverse-append (x ∷ []) xs))
      (AreBytes-append (reverse xs) (x ∷ []) (AreBytes-reverse xs h.1) (h.0, tt))

le_bytes-AreBytes : (n x : ℕ) → AreBytes (le_bytes n x)
unfolding le_bytes
le_bytes-AreBytes zero x = tt
le_bytes-AreBytes (suc n) x = (omega arith, le_bytes-AreBytes n (x / 256))

length-le_bytes : (n x : ℕ) → length (le_bytes n x) ≡ n
unfolding le_bytes
length-le_bytes zero x = refl
length-le_bytes (suc n) x = ap suc (length-le_bytes n (x / 256))

pub length-wire : (n x : ℕ) → length (wire n x) ≡ n
length-wire n x = length-reverse (le_bytes n x) ∙ length-le_bytes n x

le_bytes-le_value :
    (n : ℕ) (bs : List ℕ) → AreBytes bs → length bs ≡ n → le_bytes n (le_value bs) ≡ bs
unfolding le_bytes le_value
le_bytes-le_value zero [] h e = refl
le_bytes-le_value zero (b ∷ bs) h e = absurd (omega arith)
le_bytes-le_value (suc n) [] h e = absurd (omega arith)
le_bytes-le_value (suc n) (b ∷ bs) h e =
    let low : (b + 256 * le_value bs) % 256 ≡ b = omega arith in
    let high : (b + 256 * le_value bs) / 256 ≡ le_value bs = omega arith in
    rw (low, high) (ap (λ (t : List ℕ). b ∷ t) (le_bytes-le_value n bs h.1 (omega arith)))

le_value-le_bytes : (n x : ℕ) → x < 256 ^ n → le_value (le_bytes n x) ≡ x
unfolding le_bytes le_value
le_value-le_bytes zero x h = omega arith
le_value-le_bytes (suc n) x h =
    let bound : 256 ^ suc n ≡ 256 ^ n * 256 = pow-suc 256 n in
    omega (arith, le_value-le_bytes n (x / 256) (omega arith))

-- What `htobe` leaves in memory is the same on every host: the bytes in network order.
pub memory-host_to_network : (h : Host) (n x : ℕ) → memory h n (host_to_network h n x) ≡ wire n x
unfolding memory host_to_network swap_bytes
memory-host_to_network little n x =
    le_bytes-le_value n (wire n x) (AreBytes-reverse (le_bytes n x) (le_bytes-AreBytes n x))
      (length-wire n x)
memory-host_to_network big n x = refl

-- And `betoh` reads from them the number that was written.
pub network_to_host-from_memory :
    (h : Host) (n x : ℕ) → x < 256 ^ n → network_to_host h n (from_memory h (wire n x)) ≡ x
unfolding from_memory network_to_host swap_bytes
network_to_host-from_memory little n x b =
    rw
      (
        le_bytes-le_value n (wire n x) (AreBytes-reverse (le_bytes n x) (le_bytes-AreBytes n x))
            (length-wire n x),
        reverse-reverse,
      )
      (le_value-le_bytes n x b)
network_to_host-from_memory big n x b = rw reverse-reverse (le_value-le_bytes n x b)

-- There and back.
pub network_to_host-host_to_network :
    (h : Host) (n x : ℕ) → x < 256 ^ n → network_to_host h n (host_to_network h n x) ≡ x
unfolding network_to_host host_to_network swap_bytes
network_to_host-host_to_network little n x b =
    rw
      (
        le_bytes-le_value n (wire n x) (AreBytes-reverse (le_bytes n x) (le_bytes-AreBytes n x))
            (length-wire n x),
        reverse-reverse,
      )
      (le_value-le_bytes n x b)
network_to_host-host_to_network big n x b = refl

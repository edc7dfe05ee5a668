-- ===== src/Tests/Buffers.antt =====
-- Examples for MyNet/net/Buffer.h and Buffer.cc.
use my_net.Common.{ℕ, ◌≡◌, ◌++◌, refl, arith, List, [], ◌∷◌, length-take, take}
use my_net.Common.Outcome.{done}
use my_net.Endian.{little, big}
use my_net.Buffer.{Buffer, writable_bytes}
use my_net.Buffer.Valid.{IsValid, contents}
use my_net.Buffer.Queue.{Op, put, skip, get, get_all, take_back, run, spec_step, spec_run}
use my_net.Buffer.Refine.{view, run_refines}
use my_net.Buffer.Messages.{append_ints, read_ints, read_ints-append_ints}
use my_net.Buffer.Input.{Read, got, areas_for, read_fd}
use my_net.Buffer.Received.{total, Fits, received, read_fd_lem}

-- A buffer that holds "hi\r\n" and has room for two more bytes, and an empty one.
abbrev hello : Buffer
hello = record {
  bytes = 0 ∷ 0 ∷ 0 ∷ 0 ∷ 0 ∷ 0 ∷ 0 ∷ 0 ∷ b'h' ∷ b'i' ∷ 13 ∷ 10 ∷ 0 ∷ 0 ∷ [];
  reader = 8;
  writer = 12;
}

abbrev nothing_yet : Buffer
nothing_yet = record { bytes = 0 ∷ 0 ∷ 0 ∷ 0 ∷ 0 ∷ 0 ∷ 0 ∷ 0 ∷ []; reader = 8; writer = 8 }

hello-IsValid : IsValid hello
hello-IsValid = omega arith

nothing_yet-IsValid : IsValid nothing_yet
nothing_yet-IsValid = omega arith

abbrev calls : List Op
calls = get 2 ∷ put (1 ∷ 2 ∷ 3 ∷ []) ∷ skip 1 ∷ take_back 1 ∷ get_all ∷ []

run_refines_example :
    view (run calls hello) ≡ done ((b'h' ∷ b'i' ∷ []) ∷ [] ∷ [] ∷ [] ∷ (10 ∷ 1 ∷ 2 ∷ []) ∷ [], [])
unfolding spec_run spec_step
run_refines_example = run_refines calls hello hello-IsValid (omega arith)

read_ints-append_ints_example :
    (b₁ b₂ : Buffer) × (append_ints little 4 (1 ∷ 70000 ∷ []) nothing_yet ≡ done b₁)
    × (read_ints big 4 2 b₁ ≡ done (1 ∷ 70000 ∷ [], b₂))
    × (contents b₂ ≡ [])
read_ints-append_ints_example =
    read_ints-append_ints little big 4 (1 ∷ 70000 ∷ []) nothing_yet nothing_yet-IsValid refl
      (omega arith) (omega arith, (omega arith, tt))

-- A descriptor with five bytes to read.
abbrev readv : List ℕ → Read
readv areas = got (take (total areas) (1 ∷ 2 ∷ 3 ∷ 4 ∷ 5 ∷ []))

readv-Fits : (areas : List ℕ) → Fits areas (readv areas)
readv-Fits areas = omega (arith, length-take {A = ℕ} (total areas) (1 ∷ 2 ∷ 3 ∷ 4 ∷ 5 ∷ []))

read_fd_example :
    let r = readv (areas_for (writable_bytes hello)) in
    (b' : Buffer) × (read_fd readv hello ≡ done (r, b'))
    × IsValid b'
    × (contents b' ≡ contents hello ++ received r)
read_fd_example = read_fd_lem readv hello readv-Fits hello-IsValid (omega arith)

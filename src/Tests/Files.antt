-- ===== src/Tests/Files.antt =====
-- Examples for MyNet/base/FileUtil.cc.
use my_net.Common.{
  ℕ, zero, suc, ◌≡◌, ◌≤◌, ◌<◌, ◌⊎◌, inl, inr, refl, sym, ap, arith, min, true, false, some, List,
  [], ◌∷◌, ◌++◌, length, length-take, take, drop, take-append-drop,
}
use my_net.FileUtil.{open_file, write_line, Fwrite, Read, bytes, regular, read_to_string}
use my_net.FileUtil.Writing.{Answers, Failed, write_line_lem}
use my_net.FileUtil.Reading.{GoodAnswer, Reads, read_to_string_lem}

-- A stream that takes two characters at a time.
abbrev two_by_two : Fwrite
two_by_two i line = (min 2 (length line), false)

two_by_two-Answers : Answers two_by_two
two_by_two-Answers = record {
  at_most = λ i line. omega arith;
  some_or_error = λ i line h. inl (omega arith);
}

write_line_example :
    (n : ℕ) × (n ≤ 3)
    × (write_line two_by_two 4 (1 ∷ 2 ∷ 3 ∷ []) (open_file true (0 ∷ []))
        ≡ some (
          3,
          record { valid = true; bytes_written = 3; file = (0 ∷ []) ++ take n (1 ∷ 2 ∷ 3 ∷ []) },
        ))
    × ((n ≡ 3) ⊎ Failed two_by_two)
write_line_example =
    write_line_lem two_by_two 4 (1 ∷ 2 ∷ 3 ∷ []) (open_file true (0 ∷ [])) two_by_two-Answers
      (omega arith) refl

-- A file of three characters, which `read` gives as far as it is asked.
abbrev three : List ℕ
three = 7 ∷ 8 ∷ 9 ∷ []

abbrev read_three : Read
read_three i k n = bytes (take n (drop k three))

take-GoodAnswer : (n : ℕ) (here : List ℕ) → GoodAnswer here n (bytes (take n here))
take-GoodAnswer zero here = (here, refl, omega arith, inr (inr refl))
take-GoodAnswer (suc n) [] = ([], refl, omega arith, inr (inl refl))
take-GoodAnswer (suc n) (x ∷ xs) = (
  drop n xs,
  ap (λ (t : List ℕ). x ∷ t) (sym (take-append-drop n xs)),
  omega (arith, length-take n xs),
  inl (omega arith),
)

read_three-Reads : Reads read_three three 0
read_three-Reads = record {
  answers = λ i k n. take-GoodAnswer n (drop k three);
  calm = λ i k n h. tt;
}

read_to_string_example :
    (content : List ℕ) × (left : List ℕ) × (e : ℕ) × (read_to_string read_three 3 true 2 (regular 3)
      ≡ some (content, e))
    × (three ≡ content ++ left)
    × (length content ≤ 2)
    × ((0 < e) ⊎ (2 ≤ length content))
read_to_string_example = read_to_string_lem read_three three 0 3 2 read_three-Reads (omega arith)

-- ===== src/Exception.antt =====
-- MyNet/base/Exception.cc and .h: an exception with its message and the text of the stack that made it.
-- The frames, 200 at most, are what `backtrace` and `backtrace_symbols` give, or nothing.
use my_net.Common.{
  ℕ, ◌≡◌, refl, ap, ◌∙◌, Option, none, some, List, [], ◌∷◌, ◌++◌, append_assoc, append-nil, sym,
}

pub record Exception : Type 0 where
  pub message : List ℕ
  pub stack : List ℕ

-- A frame and the end of its line go behind what is there.
abbrev pub append_frames : List (List ℕ) → List ℕ → List ℕ
append_frames [] stack = stack
append_frames (s ∷ strings) stack = append_frames strings (stack ++ (s ++ (10 ∷ [])))

abbrev pub filled : Option (List (List ℕ)) → List ℕ → List ℕ
filled none stack = stack
filled (some strings) stack = append_frames strings stack

unfoldable pub fill_stack_track : Option (List (List ℕ)) → Exception → Exception
fill_stack_track frames e = record e { stack = filled frames e.stack }

unfoldable pub new_exception : List ℕ → Option (List (List ℕ)) → Exception
unfolding fill_stack_track
new_exception what_str frames = fill_stack_track frames (record { message = what_str; stack = [] })

unfoldable pub what : Exception → List ℕ
what e = e.message

unfoldable pub stack_trace : Exception → List ℕ
stack_trace e = e.stack

-- The frames, each with the end of its line.
abbrev pub frame_lines : List (List ℕ) → List ℕ
frame_lines [] = []
frame_lines (s ∷ strings) = s ++ (10 ∷ frame_lines strings)

append_frames_lem :
    (strings : List (List ℕ)) (stack : List ℕ)
    → append_frames strings stack ≡ stack ++ frame_lines strings
append_frames_lem [] stack = sym (append-nil stack)
append_frames_lem (s ∷ strings) stack =
    append_frames_lem strings (stack ++ (s ++ (10 ∷ [])))
    ∙ append_assoc stack (s ++ (10 ∷ [])) (frame_lines strings)
    ∙ ap (λ (t : List ℕ). stack ++ t) (append_assoc s (10 ∷ []) (frame_lines strings))

-- An exception whose frames were named says its message and the lines of the frames in order.
pub new_exception_lem :
    (message : List ℕ) (frames : List (List ℕ))
    → (what (new_exception message (some frames)) ≡ message)
      × (stack_trace (new_exception message (some frames)) ≡ frame_lines frames)
unfolding new_exception fill_stack_track what stack_trace
new_exception_lem message frames = (refl, append_frames_lem frames [])

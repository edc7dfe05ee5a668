-- ===== src/TimeZone/Lookup.antt =====
-- MyNet/base/TimeZone.cc: `findLocalTime` finds the local time that is in force.
use my_net.Common.{
  ℕ, zero, suc, ◌<◌, ◌≡◌, refl, sym, ap, ◌∙◌, inl, inr, if◌then◌else◌, Bool, true, false,
  Bool-cases, Option-cases, Option, none, some, List, [], ◌∷◌, length, arith,
}
use my_net.Common.Outcome.{Outcome, done}
use my_net.TimeZone.{
  Transition, LocalTime, Data, comp, equal, item, lower_bound, place, find_transition,
  find_local_time,
}

-- What the search is for: the last transition that does not come after `sentry`.
abbrev pub latest : Bool → Transition → List Transition → Option Transition
latest gmt sentry [] = none
latest gmt sentry (x ∷ xs) =
    if comp gmt sentry x
    then none
    else (elim (latest gmt sentry xs) [ none ↦ some x | some t ↦ some t ])

-- Each transition comes before the next one.
abbrev pub IsSorted : Bool → List Transition → Type 0
IsSorted gmt [] = Unit {0}
IsSorted gmt (x ∷ []) = Unit {0}
IsSorted gmt (x ∷ y ∷ xs) = (comp gmt x y ≡ true) × IsSorted gmt (y ∷ xs)

-- Where the binary search ends, at `j`, and the place `p` of the transition in force.
data Ends (gmt : Bool) (sentry : Transition) (xs : List Transition) (j p : ℕ) (t : Transition)
    : Type 0 where
  on_it :
      item xs j ≡ done t
      → equal gmt sentry t ≡ true
      → j < length xs
      → p ≡ j
      → Ends gmt sentry xs j p t
  behind_it :
      (u : Transition)
      → item xs j ≡ done u
      → equal gmt sentry u ≡ false
      → j < length xs
      → suc p ≡ j
      → Ends gmt sentry xs j p t
  at_end : j ≡ length xs → suc p ≡ j → Ends gmt sentry xs j p t

record Found (gmt : Bool) (sentry : Transition) (xs : List Transition) (j p : ℕ) (t : Transition)
    : Type 0 where
  there : item xs p ≡ done t
  is_latest : latest gmt sentry xs ≡ some t
  ends : Ends gmt sentry xs j p t

module _ (gmt : Bool) (sentry : Transition) where
  Ends-cons :
      (x : Transition) (xs : List Transition) (j p : ℕ) (t : Transition)
      → Ends gmt sentry xs j p t
      → Ends gmt sentry (x ∷ xs) (suc j) (suc p) t
  Ends-cons x xs j p t (on_it a b c d) = on_it a b (omega arith) (ap suc d)
  Ends-cons x xs j p t (behind_it u a b c d) = behind_it u a b (omega arith) (ap suc d)
  Ends-cons x xs j p t (at_end a b) = at_end (ap suc a) (ap suc b)

  lower_bound-Found :
      (x : Transition) (xs : List Transition)
      → IsSorted gmt (x ∷ xs)
      → comp gmt sentry x ≡ false
      → (p : ℕ) × (t : Transition) × Found gmt sentry (x ∷ xs) (lower_bound gmt sentry (x ∷ xs)) p t
  unfolding lower_bound
  lower_bound-Found x [] s h = elim (Bool-cases (comp gmt x sentry)) [
    | inl e ↦ rw e (0, x, record { there = refl; is_latest = rw h; ends = at_end refl refl })
    | inr e ↦ rw e (
      0,
      x,
      record {
        there = refl;
        is_latest = rw h;
        ends = on_it refl (ground arith) (omega arith) refl;
      },
    )
  ]
  lower_bound-Found x (y ∷ ys) s h = elim (Bool-cases (comp gmt x sentry)) [
    | inr e ↦
        let later : comp gmt sentry y ≡ true = ground (arith, s.0) in
        rw e (
          0,
          x,
          record {
            there = refl;
            is_latest = rw (h, later);
            ends = on_it refl (ground arith) (omega arith) refl;
          },
        )
    | inl e ↦ rw e (elim (Bool-cases (comp gmt sentry y)) [
      | inl later ↦
          let stop : comp gmt y sentry ≡ false = ground arith in
          let apart : equal gmt sentry y ≡ false = ground arith in
          rw stop (
            0,
            x,
            record {
              there = refl;
              is_latest = rw (h, later);
              ends = behind_it y refl apart (omega arith) refl;
            },
          )
      | inr sooner ↦
          let (p, t, f) = lower_bound-Found y ys s.1 sooner in
          (
            suc p,
            t,
            record {
              there = f.there;
              is_latest = rw (h, f.is_latest);
              ends = Ends-cons x (y ∷ ys) _ p t f.ends;
            },
          )
    ])
  ]

  place-Ends :
      (xs : List Transition) (p : ℕ) (t : Transition)
      → Ends gmt sentry xs (lower_bound gmt sentry xs) p t
      → place gmt sentry xs ≡ done p
  unfolding place
  place-Ends xs p t (on_it a b c d) = ground arith
  place-Ends xs p t (behind_it u a b c d) = ground arith
  place-Ends xs p t (at_end a b) = ground arith

  find_transition-latest :
      (x : Transition) (xs : List Transition) (z : Data)
      → z.transitions ≡ x ∷ xs
      → IsSorted gmt (x ∷ xs)
      → comp gmt sentry x ≡ false
      → (t : Transition) × (latest gmt sentry (x ∷ xs) ≡ some t)
        × (find_transition gmt sentry z ≡ item z.localtimes t.localtime_idx)
  unfolding find_transition
  find_transition-latest x xs z e s h =
      let (p, t, f) = lower_bound-Found x xs s h in
      (t, f.is_latest, rw (e, place-Ends (x ∷ xs) p t f.ends, f.there))

-- The local time of the transition in force, or the first one before all transitions.
abbrev pub time_of : Option Transition → Data → Outcome LocalTime
time_of none z = item z.localtimes 0
time_of (some t) z = item z.localtimes t.localtime_idx

abbrev pub in_force : Bool → Transition → Data → Outcome LocalTime
in_force gmt sentry z = time_of (latest gmt sentry z.transitions) z

find_in :
    (gmt : Bool) (sentry : Transition) (xs : List Transition) (times : List LocalTime)
    (text : List ℕ)
    → IsSorted gmt xs
    → let z : Data = record { transitions = xs; localtimes = times; abbreviation = text } in
      find_local_time z sentry gmt ≡ in_force gmt sentry z
unfolding find_local_time
find_in gmt sentry [] times text s = refl
find_in gmt sentry (x ∷ xs) times text s =
    let z : Data = record { transitions = x ∷ xs; localtimes = times; abbreviation = text } in
    elim (Bool-cases (comp gmt sentry x)) [
      | inl h ↦
          let l : latest gmt sentry (x ∷ xs) ≡ none = rw h in
          let f : find_local_time z sentry gmt ≡ item times 0 = rw h in
          f ∙ ap (λ o. time_of o z) (sym l)
      | inr h ↦
          let (t, l, f) = find_transition-latest gmt sentry x xs z refl s h in
          let g : find_local_time z sentry gmt ≡ find_transition gmt sentry z = rw h in
          g ∙ f ∙ ap (λ o. time_of o z) (sym l)
    ]

-- Where each transition of a zone comes before the next one, `findLocalTime` by its binary
-- search is the local time in force: that of the last transition that does not come after the
-- time asked for, or the first local time if every transition comes after it.
pub find_local_time-in_force :
    (gmt : Bool) (sentry : Transition) (z : Data)
    → IsSorted gmt z.transitions
    → find_local_time z sentry gmt ≡ in_force gmt sentry z
find_local_time-in_force gmt sentry z s =
    find_in gmt sentry z.transitions z.localtimes z.abbreviation s

-- What a zone needs so that the search never leaves a vector.
abbrev pub IndicesBelow : ℕ → List Transition → Type 0
IndicesBelow n [] = Unit {0}
IndicesBelow n (t ∷ ts) = (t.localtime_idx < n) × IndicesBelow n ts

abbrev pub IsComplete : Data → Type 0
IsComplete z = (0 < length z.localtimes) × IndicesBelow (length z.localtimes) z.transitions

pub item-done : {A : Type 0} (xs : List A) (i : ℕ) → i < length xs → (x : A) × (item xs i ≡ done x)
item-done [] i h = absurd (omega arith)
item-done (x ∷ xs) zero h = (x, refl)
item-done (x ∷ xs) (suc i) h = item-done xs i (omega arith)

latest-IndicesBelow :
    (gmt : Bool) (sentry : Transition) (n : ℕ) (xs : List Transition) (t : Transition)
    → IndicesBelow n xs
    → latest gmt sentry xs ≡ some t
    → t.localtime_idx < n
latest-IndicesBelow gmt sentry n [] t b e = cc
latest-IndicesBelow gmt sentry n (x ∷ xs) t b e = elim (Option-cases (latest gmt sentry xs)) [
  | inl none_later ↦ ground (arith, none_later, b.0)
  | inr (u, later) ↦ ground (arith, latest-IndicesBelow gmt sentry n xs u b.1 later)
]

pub find_local_time-done :
    (gmt : Bool) (sentry : Transition) (z : Data)
    → IsSorted gmt z.transitions
    → IsComplete z
    → (l : LocalTime) × (find_local_time z sentry gmt ≡ done l)
find_local_time-done gmt sentry z s c = elim (Option-cases (latest gmt sentry z.transitions)) [
  | inl e ↦
      let (l, f) = item-done z.localtimes 0 c.0 in
      (l, find_local_time-in_force gmt sentry z s ∙ ap (λ o. time_of o z) e ∙ f)
  | inr (t, e) ↦
      let (l, f) =
        item-done z.localtimes t.localtime_idx
          (latest-IndicesBelow gmt sentry (length z.localtimes) z.transitions t c.1 e) in
      (l, find_local_time-in_force gmt sentry z s ∙ ap (λ o. time_of o z) e ∙ f)
]

-- ===== src/TimeZone.antt =====
-- MyNet/base/TimeZone.cc and .h: the local times of a zone, the times at which they change, and
-- which of them is in force. A `time_t` is its value.
pub mod Clock
pub mod File
pub mod Lookup
pub mod Format
pub mod Reads
pub mod Roundtrip
use my_net.Common.{
  ℕ, zero, suc, ◌+◌, ◌-◌, ◌/◌, ◌%◌, ◌==◌, ◌||◌, not, if◌then◌else◌, Bool, true, false, Option, none,
  some, List, [], ◌∷◌, length, get_elem?,
}
use my_net.Common.Int.{ℤ, ◌+ℤ◌, pos, ltb_ℤ, eqb_ℤ}
use my_net.Common.Outcome.{Outcome, done, fault, out_of_bounds, check, ◌>>=◌, ◌>>◌}

pub record Transition : Type 0 where
  pub gmtime : ℤ
  pub localtime : ℤ
  pub localtime_idx : ℕ

-- `struct Comp`: `compare_gmt` is its only field.
abbrev pub key : Bool → Transition → ℤ
key compare_gmt t = if compare_gmt then t.gmtime else t.localtime

abbrev pub comp : Bool → Transition → Transition → Bool
comp compare_gmt lhs rhs = ltb_ℤ (key compare_gmt lhs) (key compare_gmt rhs)

abbrev pub equal : Bool → Transition → Transition → Bool
equal compare_gmt lhs rhs = eqb_ℤ (key compare_gmt lhs) (key compare_gmt rhs)

pub record LocalTime : Type 0 where
  pub gmt_offset : ℤ
  pub is_dest : Bool
  pub arrb_inx : ℕ

-- The fields of a `struct tm` that `fillHMS` sets.
pub record Hms : Type 0 where
  pub sec : ℕ
  pub min : ℕ
  pub hour : ℕ

unfoldable pub fill_hms : ℕ → Hms
fill_hms seconds =
    let minutes = seconds / 60 in
    record { sec = seconds % 60; min = minutes % 60; hour = minutes / 60 }

-- `struct TimeZone::Data`; its `names` stay empty.
pub record Data : Type 0 where
  pub transitions : List Transition
  pub localtimes : List LocalTime
  pub abbreviation : List ℕ

abbrev pub no_data : Data
no_data = record { transitions = []; localtimes = []; abbreviation = [] }

-- An element of a vector: past its end the code has no meaning.
abbrev pub item : {A : Type 0} → List A → ℕ → Outcome A
item [] i = fault out_of_bounds
item (x ∷ xs) zero = done x
item (x ∷ xs) (suc i) = item xs i

-- `std::lower_bound` in a sorted range: the first place whose element is not before `sentry`.
unfoldable pub lower_bound : Bool → Transition → List Transition → ℕ
lower_bound gmt sentry [] = 0
lower_bound gmt sentry (x ∷ xs) =
    let later = lower_bound gmt sentry xs in if comp gmt x sentry then suc later else 0

-- The place of the transition whose local time `findLocalTime` takes, in the branch of the search.
unfoldable pub place : Bool → Transition → List Transition → Outcome ℕ
unfolding lower_bound
place gmt sentry transitions =
    let i = lower_bound gmt sentry transitions in
    if i == length transitions
    then done (i - 1)
    else (item transitions i >>= λ t.
        (if not (equal gmt sentry t) then (check (not (i == 0)) >> done (i - 1)) else done i))

unfoldable pub find_transition : Bool → Transition → Data → Outcome LocalTime
unfolding place
find_transition gmt sentry z = do
  i ← place gmt sentry z.transitions
  t ← item z.transitions i
  item z.localtimes t.localtime_idx

unfoldable pub find_local_time : Data → Transition → Bool → Outcome LocalTime
unfolding find_transition
find_local_time z sentry gmt = elim z.transitions [
  | [] ↦ item z.localtimes 0
  | x ∷ xs ↦ if comp gmt sentry x then item z.localtimes 0 else find_transition gmt sentry z
]

-- The times in both clocks, from the times, their indices and the local times.
unfoldable pub transitions_of : List LocalTime → List ℤ → List ℕ → Outcome (List Transition)
transitions_of localtimes [] indices = done []
transitions_of localtimes (t ∷ ts) [] = fault out_of_bounds
transitions_of localtimes (t ∷ ts) (i ∷ is) = do
  local ← item localtimes i
  rest ← transitions_of localtimes ts is
  done (record { gmtime = t; localtime = t +ℤ local.gmt_offset; localtime_idx = i } ∷ rest)

-- A `TimeZone`: the data that `m_spDate` points to, if any.
abbrev pub Zone : Type 0
Zone = Option Data

unfoldable pub valid : Zone → Bool
valid none = false
valid (some d) = true

-- The zone that lies a fixed time east of UTC.
unfoldable pub fixed : ℤ → List ℕ → Zone
fixed east_of_utc tzname = some (record no_data {
  localtimes = record { gmt_offset = east_of_utc; is_dest = false; arrb_inx = 0 } ∷ [];
  abbreviation = tzname;
})

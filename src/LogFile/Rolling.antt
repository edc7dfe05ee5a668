-- ===== src/LogFile/Rolling.antt =====
-- MyNet/base/LogFile.cc: the text in the files of a log, and what follows a write.
use my_net.Common.{
  ℕ, ◌+◌, ◌≤◌, ◌<◌, ◌≡◌, ◌⊎◌, inl, inr, refl, sym, ap, ◌∙◌, ◌==◌, ltb, leb, true, Bool-cases,
  Option, none, some, List, [], ◌∷◌, ◌++◌, append_assoc, append-nil, arith, leb→le,
}
use my_net.Common.Outcome.{returns}
use my_net.FileUtil.{WriteFile}
use my_net.Mutex.{MutexLock}
use my_net.LogFile.{
  System, LogFile, period_of, get_log_file_name, roll_file, flush, check_file, after_write,
}

-- The text of files in a row, and of all the files of a log.
abbrev pub text_of_files : List WriteFile → List ℕ
text_of_files [] = []
text_of_files (w ∷ ws) = w.file ++ text_of_files ws

abbrev pub text : LogFile → List ℕ
text f = text_of_files f.closed ++ f.file.file

-- Files that open, and are new.
abbrev pub Opens : System → Type 0
Opens sys =
    (name : List ℕ) → sys.opened name ≡ record { valid = true; bytes_written = 0; file = [] }

-- Nobody has the lock, and the file is open.
abbrev pub IsFree : Option MutexLock → Type 0
IsFree none = Unit {0}
IsFree (some m) = m.owner ≡ none

abbrev pub IsReady : LogFile → Type 0
IsReady f = IsFree f.mutex × (f.file.valid ≡ true)

-- An append that leaves `size` characters in the file reaches the flush.
pub record FlushDue (now size : ℕ) (f : LogFile) : Type 0 where
  pub small : size < f.roll_size
  pub checked : f.check_every_n ≤ f.append_count + 1
  pub same_period : period_of now ≡ f.start_period
  pub interval_over : f.last_flush + f.flush_interval ≤ now

-- The file may be a new one; the text and the lock are the same.
pub record IsKept (f f' : LogFile) : Type 0 where
  pub same_text : text f' ≡ text f
  pub same_mutex : f'.mutex ≡ f.mutex
  pub open_file : f'.file.valid ≡ true

text_of_files-append :
    (ws : List WriteFile) (w : WriteFile)
    → text_of_files (ws ++ (w ∷ [])) ≡ text_of_files ws ++ w.file
text_of_files-append [] w = append-nil w.file
text_of_files-append (v ∷ ws) w =
    ap (λ (t : List ℕ). v.file ++ t) (text_of_files-append ws w)
    ∙ sym (append_assoc v.file (text_of_files ws) w.file)

pub roll_file-IsKept :
    (sys : System) (now : ℕ) (f : LogFile)
    → Opens sys
    → f.file.valid ≡ true
    → IsKept f (roll_file sys now f).1
unfolding roll_file
roll_file-IsKept sys now f o v = elim (Bool-cases (ltb f.last_roll now)) [
  | inl e ↦
      let name = get_log_file_name sys f.basename now in
      rw e (record {
        same_text =
            ap (λ (w : WriteFile). text_of_files (f.closed ++ (f.file ∷ [])) ++ w.file) (o name)
            ∙ append-nil (text_of_files (f.closed ++ (f.file ∷ [])))
            ∙ text_of_files-append f.closed f.file;
        same_mutex = refl;
        open_file = ap (λ (w : WriteFile). w.valid) (o name);
      })
  | inr e ↦ rw e (record { same_text = refl; same_mutex = refl; open_file = v })
]

-- The flush of a check, which sets `m_lastFlush` first.
check_file-Cases :
    (sys : System) (tid now later : ℕ) (f : LogFile)
    → Opens sys
    → f.file.valid ≡ true
    → ((period_of now ≡ f.start_period) × (f.last_flush + f.flush_interval ≤ now))
        × (check_file sys tid now later f ≡ flush tid (record f { last_flush = now }))
      ⊎ ¬ ((period_of now ≡ f.start_period) × (f.last_flush + f.flush_interval ≤ now))
        × ((f' : LogFile) × (check_file sys tid now later f ≡ returns f') × IsKept f f')
unfolding check_file
check_file-Cases sys tid now later f o v = elim (Bool-cases (period_of now == f.start_period)) [
  | inr e ↦ rw e (
      inr (
        λ d. (let s = d.0 in ground arith),
        ((roll_file sys later f).1, refl, roll_file-IsKept sys later f o v),
      ))
  | inl e ↦ rw e (elim (Bool-cases (leb (f.last_flush + f.flush_interval) now)) [
    | inr c ↦ rw c (
        inr (
          λ d. (let s = d.1 in ground arith),
          (f, refl, record { same_text = refl; same_mutex = refl; open_file = v }),
        ))
    | inl c ↦ rw c (inl ((ground arith, ground arith), refl))
  ])
]

-- After a write, either the flush is due and reached, or the append ends and keeps the text.
pub after_write-Cases :
    (sys : System) (tid now later : ℕ) (f : LogFile)
    → Opens sys
    → f.file.valid ≡ true
    → FlushDue now f.file.bytes_written f
        × (after_write sys tid now later f
            ≡ flush tid (record f { append_count = 0; last_flush = now }))
      ⊎ ¬ FlushDue now f.file.bytes_written f
        × ((f' : LogFile) × (after_write sys tid now later f ≡ returns f') × IsKept f f')
unfolding check_file
after_write-Cases sys tid now later f o v =
    elim (Bool-cases (leb f.roll_size f.file.bytes_written)) [
      | inl e ↦ rw e (
          inr (
            λ d. (let s = d.small in ground arith),
            ((roll_file sys later f).1, refl, roll_file-IsKept sys later f o v),
          ))
      | inr e ↦ rw e (elim (Bool-cases (leb f.check_every_n (f.append_count + 1))) [
        | inr c ↦ rw c (
            inr (
              λ d. (let s = d.checked in ground arith),
              (
                record f { append_count = f.append_count + 1 },
                refl,
                record { same_text = refl; same_mutex = refl; open_file = v },
              ),
            ))
        | inl c ↦
            rw c (elim (check_file-Cases sys tid now later (record f { append_count = 0 }) o v) [
              | inl ((p, i), h) ↦ inl (
                record {
                  small = let q : f.file.bytes_written < f.roll_size = ground arith in q;
                  checked = leb→le f.check_every_n (f.append_count + 1) c;
                  same_period = p;
                  interval_over = i;
                },
                h,
              )
              | inr (n, (f', e', k)) ↦ inr (
                λ d. n (d.same_period, d.interval_over),
                (
                  f',
                  e',
                  record {
                    same_text = k.same_text;
                    same_mutex = k.same_mutex;
                    open_file = k.open_file;
                  },
                ),
              )
            ])
      ])
    ]

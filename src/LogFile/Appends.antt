-- ===== src/LogFile/Appends.antt =====
-- MyNet/base/LogFile.cc: what appends leave in the files of a log, and where one blocks for ever.
use my_net.Common.{
  subst, Option-cases, ℕ, ◌≢◌, ◌+◌, ◌<◌, ◌≡◌, ◌⊎◌, inl, inr, refl, sym, ap, ◌∙◌, true, Option, none,
  some, List, [], ◌∷◌, ◌++◌, length, take_all, append_assoc, append-nil, arith,
}
use my_net.Common.Outcome.{Attempt, returns, stops, and_then, deadlock}
use my_net.FileUtil.{Fwrite}
use my_net.FileUtil.Writing.{Answers, Failed, write_line_lem}
use my_net.Mutex.{MutexLock, assign, lock, unlock, pthread_lock}
use my_net.LogFile.{System, LogFile, in_lock, flush, release, after_write, append_unlocked, append}
use my_net.LogFile.Rolling.{
  text_of_files, text, Opens, IsFree, IsReady, FlushDue, after_write-Cases,
}

-- The file after a line that every call takes.
abbrev with_line : List ℕ → LogFile → LogFile
with_line line f = record f {
  file = record f.file {
    bytes_written = f.file.bytes_written + length line;
    file = f.file.file ++ line;
  };
}

with_line-text : (line : List ℕ) (f : LogFile) → text (with_line line f) ≡ text f ++ line
with_line-text line f = sym (append_assoc (text_of_files f.closed) f.file.file line)

append_unlocked-written :
    (sys : System) (fwrite : Fwrite) (fuel tid now later : ℕ) (line : List ℕ) (f : LogFile)
    → Answers fwrite
    → ¬ Failed fwrite
    → length line < fuel
    → f.file.valid ≡ true
    → append_unlocked sys fwrite fuel tid now later line f
      ≡ after_write sys tid now later (with_line line f)
unfolding append_unlocked
append_unlocked-written sys fwrite fuel tid now later line f a ok h v =
    let (n, l, e, c) = write_line_lem fwrite fuel line f.file a h v in
    elim c [ inl q ↦ rw (e, take_all n line (omega arith)) refl | inr bad ↦ absurd (ok bad) ]

-- The lock while a thread has it, and taking it.
abbrev held : ℕ → MutexLock
held tid = record { owner = some tid; holder = tid }

lock_free :
    (tid : ℕ) (o : Option ℕ) (h : ℕ)
    → o ≡ none
    → lock tid (record { owner = o; holder = h }) ≡ returns (held tid)
unfolding lock pthread_lock assign
lock_free tid o h e = rw e refl

pub in_lock_free :
    (o : Option MutexLock) (tid : ℕ) (body : LogFile → Attempt LogFile) (f : LogFile)
    → IsFree o
    → o ≢ none
    → in_lock o tid body f
      ≡ and_then (body (record f { mutex = some (held tid) })) (λ f'. returns (release f'))
in_lock_free none tid body f free n = absurd (n refl)
in_lock_free (some m) tid body f free n = rw (lock_free tid m.owner m.holder free) refl

flush_owned :
    (tid : ℕ) (o : Option MutexLock) (g : LogFile)
    → o ≡ some (held tid)
    → in_lock o tid returns g ≡ stops deadlock
unfolding lock pthread_lock
flush_owned tid o g e = rw e (ground arith)

module _ (sys : System) (fwrite : Fwrite) (fuel tid now later : ℕ) (line : List ℕ)
    (new_files : Opens sys) (answers : Answers fwrite) (no_error : ¬ Failed fwrite)
    (enough : length line < fuel) where
  -- The lock is part of no condition of the flush.
  FlushDue-with_line :
      (f : LogFile) (o : Option MutexLock)
      → FlushDue now (f.file.bytes_written + length line) f
      → FlushDue now (f.file.bytes_written + length line) (with_line line (record f { mutex = o }))
  FlushDue-with_line f o d = record {
    small = d.small;
    checked = d.checked;
    same_period = d.same_period;
    interval_over = d.interval_over;
  }

  -- For such a stream, files and fuel, a log with a free lock blocks its own thread for ever
  -- in every append that reaches the flush: the file is still small, the count has come to the
  -- number of appends between checks, the day is that of the file, and the interval since the
  -- last flush is over.
  pub append-deadlock :
      (f : LogFile)
      → IsReady f
      → f.mutex ≢ none
      → FlushDue now (f.file.bytes_written + length line) f
      → append sys fwrite fuel tid now later line f ≡ stops deadlock
  unfolding append flush unlock
  append-deadlock f r n d =
      let f0 = record f { mutex = some (held tid) } in
      let body =
        append_unlocked-written sys fwrite fuel tid now later line f0 answers no_error enough r.1 in
      in_lock_free f.mutex tid (append_unlocked sys fwrite fuel tid now later line) f r.0 n
      ∙ elim (after_write-Cases sys tid now later (with_line line f0) new_files r.1) [
        | inl (_, e) ↦
            rw
              (
                body,
                e,
                flush_owned tid (some (held tid))
                    (record (with_line line f0) { append_count = 0; last_flush = now }) refl,
              )
              refl
        | inr (c, _) ↦ absurd (c (FlushDue-with_line f (some (held tid)) d))
      ]

  -- What an append that ends has done.
  abbrev pub Appended : LogFile → LogFile → Type 0
  Appended f f' = (text f' ≡ text f ++ line) × IsReady f'

  -- Without a lock the flush is an end as well.
  append-Appended_of :
      (o : Option MutexLock) (f : LogFile)
      → IsFree o
      → f.file.valid ≡ true
      → (o ≡ none) ⊎ ¬ FlushDue now (f.file.bytes_written + length line) f
      → (f' : LogFile) × (append sys fwrite fuel tid now later line (record f { mutex = o })
          ≡ returns f')
        × Appended f f'
  unfolding append flush unlock
  append-Appended_of none f free v h =
      let f0 = record f { mutex = none } in
      let body =
        append_unlocked-written sys fwrite fuel tid now later line f0 answers no_error enough v in
      elim (after_write-Cases sys tid now later (with_line line f0) new_files v) [
        | inl (_, e) ↦ (
          record (with_line line f0) { append_count = 0; last_flush = now },
          body ∙ e,
          (with_line-text line f0, (tt, v)),
        )
        | inr (_, (f', e, k)) ↦ (
          f',
          body ∙ e,
          (k.same_text ∙ with_line-text line f0, (rw k.same_mutex tt, k.open_file)),
        )
      ]
  append-Appended_of (some m) f free v (inl e) = absurd cc
  append-Appended_of (some m) f free v (inr n) =
      let f0 = record f { mutex = some (held tid) } in
      let body =
        append_unlocked-written sys fwrite fuel tid now later line f0 answers no_error enough v in
      elim (after_write-Cases sys tid now later (with_line line f0) new_files v) [
        | inl (d, _) ↦ absurd (
            n (record {
              small = d.small;
              checked = d.checked;
              same_period = d.same_period;
              interval_over = d.interval_over;
            }))
        | inr (_, (f', e, k)) ↦ (
          release f',
          rw (lock_free tid m.owner m.holder free, body, e) refl,
          (k.same_text ∙ with_line-text line f0, (rw k.same_mutex refl, k.open_file)),
        )
      ]

  -- For a stream that takes what it is given and reports no error, new files that open, more
  -- fuel than the line is long, and a log whose file is open and whose lock is free, an append
  -- without a lock, or one that does not reach the flush, ends: the text of the closed files
  -- and the open one in a row has grown by the line, whether or not it rolls the file, and the
  -- log is again such a log.
  pub append-Appended :
      (f : LogFile)
      → IsReady f
      → (f.mutex ≡ none) ⊎ ¬ FlushDue now (f.file.bytes_written + length line) f
      → (f' : LogFile) × (append sys fwrite fuel tid now later line f ≡ returns f') × Appended f f'
  append-Appended f r h = append-Appended_of f.mutex f r.0 r.1 h

  -- An append blocks its own thread for ever, or ends.
  pub append-Cases :
      (f : LogFile)
      → IsReady f
      → (append sys fwrite fuel tid now later line f ≡ stops deadlock)
        ⊎ ((f' : LogFile) × (append sys fwrite fuel tid now later line f ≡ returns f')
            × Appended f f')
  append-Cases f r = elim (Option-cases f.mutex) [
    | inl n ↦ inr (append-Appended f r (inl n))
    | inr (m, q) ↦ elim (after_write-Cases sys tid now later (with_line line f) new_files r.1) [
      | inl (d, _) ↦ inl (
          append-deadlock f r (λ n. cc)
            (record {
              small = d.small;
              checked = d.checked;
              same_period = d.same_period;
              interval_over = d.interval_over;
            }))
      | inr (n, _) ↦ inr (append-Appended f r (inr (λ d. n (FlushDue-with_line f f.mutex d))))
    ]
  ]

  -- An append that returns has added its line.
  returned-Appended :
      (f f' : LogFile)
      → IsReady f
      → append sys fwrite fuel tid now later line f ≡ returns f'
      → Appended f f'
  returned-Appended f f' r e = elim (append-Cases f r) [
    | inl blocked ↦ absurd cc
    | inr (g, e', x) ↦ let same : g ≡ f' = cc in subst (Appended f) same x
  ]

-- Appends that return, one after the other: each by some thread, at some times, with its own line.
pub data Appends (sys : System) (fwrite : Fwrite) (fuel : ℕ) (f : LogFile)
    : List (List ℕ) → LogFile → Type 0 where
  no_more : Appends sys fwrite fuel f [] f
  one_more :
      {lines : List (List ℕ)} {g g' : LogFile} (tid now later : ℕ) (line : List ℕ)
      → Appends sys fwrite fuel f lines g
      → length line < fuel
      → append sys fwrite fuel tid now later line g ≡ returns g'
      → Appends sys fwrite fuel f (lines ++ (line ∷ [])) g'

abbrev pub joined : List (List ℕ) → List ℕ
joined [] = []
joined (line ∷ lines) = line ++ joined lines

joined-append :
    (lines : List (List ℕ)) (line : List ℕ) → joined (lines ++ (line ∷ [])) ≡ joined lines ++ line
joined-append [] line = append-nil line
joined-append (l ∷ lines) line =
    ap (λ (t : List ℕ). l ++ t) (joined-append lines line)
    ∙ sym (append_assoc l (joined lines) line)

-- For a stream that takes what it is given and reports no error, new files that open, and a log
-- whose file is open and whose lock is free or which has none, after any sequence of appends
-- that return, by any threads and at any times, with more fuel than their lines are long, the
-- text of the closed files and the open one in a row has grown by the lines in order, over all
-- the files that were rolled, and the log is again such a log.
pub Appends-text :
    (sys : System) (fwrite : Fwrite) (fuel : ℕ) {f f' : LogFile} {lines : List (List ℕ)}
    → Opens sys
    → Answers fwrite
    → ¬ Failed fwrite
    → IsReady f
    → Appends sys fwrite fuel f lines f'
    → (text f' ≡ text f ++ joined lines) × IsReady f'
Appends-text sys fwrite fuel o a ok r no_more = (sym (append-nil _), r)
Appends-text sys fwrite fuel {f} o a ok r (one_more {lines} {g} tid now later line t h e) =
    let (before, ready) = Appends-text sys fwrite fuel o a ok r t in
    let (added, ready') =
      returned-Appended sys fwrite fuel tid now later line o a ok h g _ ready e in
    (
      added
          ∙ ap (λ (t : List ℕ). t ++ line) before
          ∙ append_assoc (text f) (joined lines) line
          ∙ ap (λ (t : List ℕ). text f ++ t) (sym (joined-append lines line)),
      ready',
    )

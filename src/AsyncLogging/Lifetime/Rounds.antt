-- ===== src/AsyncLogging/Lifetime/Rounds.antt =====
-- MyNet/base/AsyncLogging.cc: what a round of the writing thread does to its log file.
use my_net.Common.{
  ℕ, suc, ◌≤◌, ◌<◌, ◌≡◌, ◌⊎◌, inl, inr, refl, sym, ap, ◌∙◌, subst, some, List, [], ◌∷◌, ◌++◌,
  length, length-take, take_all, append_assoc, append-nil, Option-cases, arith,
}
use my_net.Common.Outcome.{Attempt, returns, stops, deadlock, and_then}
use my_net.FileUtil.{WriteFile, write_line}
use my_net.Mutex.{init, unlock}
use my_net.FileUtil.Writing.{Answers, Failed, write_line_lem}
use my_net.LogFile.{LogFile, append, at_flush, flush, new_log_file}
use my_net.LogFile.Rolling.{text_of_files, text, Opens, IsFree, IsReady, roll_file-IsKept}
use my_net.LogFile.Appends.{append-Cases, in_lock_free, joined}
use my_net.LogStream.{FixedBuffer, as_string}
use my_net.AsyncLogging.{Back, texts}
use my_net.AsyncLogging.Shapes.{BackShape, resting, one_out, both_out, Holds}
use my_net.AsyncLogging.Lifetime.{
  Setting, Clock, new_log, to_append, append_all, left_after, write_round,
}

-- New files open, the stream takes what it is given and reports no error, and the fuel of its loop is
-- more than a buffer.
pub record Works (e : Setting) : Type 0 where
  pub new_files : Opens e.sys
  pub answers : Answers e.fwrite
  pub no_error : ¬ Failed e.fwrite
  pub enough : e.size < e.fuel

-- The log after a step: it was kept from its end by its own lock, or its text has grown by `added`.
abbrev pub Grown : LogFile → List ℕ → LogFile → Type 0
Grown f added f' = (text f' ≡ text f ++ added) × IsReady f'

abbrev pub Grows : Attempt LogFile → LogFile → List ℕ → Type 0
Grows r f added = (r ≡ stops deadlock) ⊎ ((f' : LogFile) × (r ≡ returns f') × Grown f added f')

pub new_log-IsReady :
    (e : Setting) (now : ℕ) → Works e → (text (new_log e now) ≡ []) × IsReady (new_log e now)
unfolding new_log_file
new_log-IsReady e now h =
    let opened = h.new_files e.basename in
    let k =
      roll_file-IsKept e.sys now
        (record {
          mutex = some init;
          file = e.sys.opened e.basename;
          closed = [];
          start_period = e.start_period;
          last_flush = e.last_flush;
          last_roll = e.last_roll;
          append_count = e.append_count;
          roll_size = e.roll_size;
          basename = e.basename;
          flush_interval = e.flush_interval;
          check_every_n = 1024;
        })
        h.new_files (ap (λ (w : WriteFile). w.valid) opened) in
    (
      k.same_text ∙ ap (λ (w : WriteFile). w.file) opened,
      (subst IsFree (sym k.same_mutex) refl, k.open_file),
    )

pub flush-Grows : (tid : ℕ) (f : LogFile) → IsReady f → Grows (flush tid f) f []
unfolding flush unlock
flush-Grows tid f r = elim (Option-cases f.mutex) [
  | inl n ↦ inr (f, rw n refl, (sym (append-nil (text f)), r))
  | inr (m, q) ↦ inr (
    _,
    in_lock_free f.mutex tid returns f r.0 (λ n. cc),
    (sym (append-nil (text f)), (refl, r.1)),
  )
]

-- One step after another.
Grows-then :
    (m : Attempt LogFile) (next : LogFile → Attempt LogFile) (f : LogFile) (x y : List ℕ)
    → Grows m f x
    → ((f' : LogFile) → IsReady f' → Grows (next f') f' y)
    → Grows (and_then m next) f (x ++ y)
Grows-then m next f x y (inl e) h = inl (rw e refl)
Grows-then m next f x y (inr (f', e, (t, r))) h = elim (h f' r) [
  | inl e' ↦ inl (rw e e')
  | inr (f'', e', (t', r')) ↦
      inr (f'', rw e e', (t' ∙ ap (λ (u : List ℕ). u ++ y) t ∙ append_assoc (text f) x y, r'))
]

-- Every text is shorter than the fuel.
abbrev pub AllFit : ℕ → List (List ℕ) → Type 0
AllFit fuel [] = Unit {0}
AllFit fuel (t ∷ ts) = (length t < fuel) × AllFit fuel ts

append_all-Grows :
    (e : Setting) (clock : Clock) (i : ℕ) (ts : List (List ℕ)) (f : LogFile)
    → Works e
    → AllFit e.fuel ts
    → IsReady f
    → Grows (append_all e clock i ts f) f (joined ts)
unfolding append_all
append_all-Grows e clock i [] f h l r = inr (f, refl, (sym (append-nil (text f)), r))
append_all-Grows e clock i (t ∷ ts) f h (l, ls) r =
    Grows-then (append e.sys e.fwrite e.fuel e.tid (clock i).0 (clock i).1 t f)
      (append_all e clock (suc i) ts) f t (joined ts)
      (append-Cases e.sys e.fwrite e.fuel e.tid (clock i).0 (clock i).1 t h.new_files h.answers
        h.no_error l f r)
      (λ f' r'. append_all-Grows e clock (suc i) ts f' h ls r')

-- At its flush an append has written its line.
at_flush-text :
    (e : Setting) (now : ℕ) (line : List ℕ) (f : LogFile)
    → Works e
    → length line < e.fuel
    → IsReady f
    → text (at_flush e.tid now (write_line e.fwrite e.fuel line f.file) f) ≡ text f ++ line
at_flush-text e now line f h l r =
    let (n, k, q, c) = write_line_lem e.fwrite e.fuel line f.file h.answers l r.1 in
    elim c [
      | inl z ↦
          rw (q, take_all n line (omega arith))
            (sym (append_assoc (text_of_files f.closed) f.file.file line))
      | inr bad ↦ absurd (h.no_error bad)
    ]

-- A part of the texts has been written, and the rest has not.
abbrev pub InPart : List ℕ → List ℕ → List ℕ → Type 0
InPart before all after =
    (written unwritten : List ℕ) × (after ≡ before ++ written) × (written ++ unwritten ≡ all)

pub left_after-InPart :
    (e : Setting) (clock : Clock) (i : ℕ) (ts : List (List ℕ)) (f : LogFile)
    → Works e
    → AllFit e.fuel ts
    → IsReady f
    → InPart (text f) (joined ts) (text (left_after e clock i ts f))
left_after-InPart e clock i [] f h l r = ([], [], sym (append-nil (text f)), refl)
left_after-InPart e clock i (t ∷ ts) f h (l, ls) r =
    elim (append-Cases e.sys e.fwrite e.fuel e.tid (clock i).0 (clock i).1 t h.new_files h.answers
      h.no_error l f r) [
        | inl q ↦ (t, joined ts, rw q (at_flush-text e (clock i).0 t f h l r), refl)
        | inr (f', q, (te, r')) ↦
            let (x, y, p, p') = left_after-InPart e clock (suc i) ts f' h ls r' in
            (
              t ++ x,
              y,
              rw q (p ∙ ap (λ (u : List ℕ). u ++ x) te ∙ append_assoc (text f) t x),
              append_assoc t x y ∙ ap (λ (u : List ℕ). t ++ u) p',
            )
      ]

Holds-fits :
    (size : ℕ) {x : List ℕ} (b : FixedBuffer) → Holds size x b → length (as_string b) ≤ size
Holds-fits size b h = omega (arith, length-take b.cur b.chars, h.storage, h.inside)

pub to_append-texts :
    (e : Setting) {k : Back} {x : List ℕ}
    → Works e
    → BackShape e.size k x
    → AllFit e.fuel (to_append e.message k.to_write)
      × (joined (to_append e.message k.to_write) ≡ texts k.to_write)
unfolding to_append
to_append-texts e h (resting f g i j i' j') = (tt, refl)
to_append-texts e h (one_out b g x i i' j) =
    let l = Holds-fits e.size b i in let n = h.enough in ((omega arith, tt), refl)
to_append-texts e h (both_out d b x y i j) =
    let l = Holds-fits e.size d i in
    let l' = Holds-fits e.size b j in let n = h.enough in ((omega arith, (omega arith, tt)), refl)

-- A round without fault appends what it was handed.
pub write_round-Grows :
    (e : Setting) (clock : Clock) {k : Back} {x : List ℕ} (f : LogFile)
    → Works e
    → BackShape e.size k x
    → IsReady f
    → Grows (write_round e clock k.to_write f) f (texts k.to_write)
unfolding write_round to_append
write_round-Grows e clock {k} f h s r =
    let (l, t) = to_append-texts e h s in
    let grows =
      Grows-then (append_all e clock 0 (to_append e.message k.to_write) f) (flush e.tid) f
        (joined (to_append e.message k.to_write)) []
        (append_all-Grows e clock 0 (to_append e.message k.to_write) f h l r) (flush-Grows e.tid) in
    subst (Grows (write_round e clock k.to_write f) f) (append-nil _ ∙ t) grows

-- ===== src/Logging/Output.antt =====
-- MyNet/base/Logging.cc: a whole line, from the constructor to the output.
use my_net.Common.{
  ℕ, ◌≤◌, ◌<◌, ◌^◌, ◌≡◌, inl, inr, refl, sym, ap, ◌∙◌, arith, ◌==◌, if◌then◌else◌, true, Bool-cases,
  List, [], ◌∷◌, ◌++◌, length, length-append,
}
use my_net.Common.Int.{ℤ, pos, eqb_ℤ}
use my_net.Common.Outcome.{done}
use my_net.LogStream.{FixedBuffer, Item, text, make, small_buffer, put, as_string}
use my_net.Timestamp.{now}
use my_net.Timestamp.Order.{secs_since_epoch-now}
use my_net.ThreadOp.{ThreadLocals, tid}
use my_net.ThreadOp.Cached.{Run, asks, Run-tid}
use my_net.TimeZone.{Zone, valid}
use my_net.Logging.{
  System, Locals, LogLevel, trace, debug, info, warn, error, log_level_name, put_t, second_text,
  fraction_text, format_time, error_items, put_all, new_impl, finish, end_line, log_line, number,
  fatal,
}
use my_net.Logging.Lines.{
  text_of_items, room, Are64Bit, put_all-Adds, put_all-append, end_items, line_items, IsFormatted,
  IsFresh, IsCached, cache_second-IsCached, eqb_ℤ-eq,
}

put_t_lem :
    (str : List ℕ) (len : ℕ) (s : FixedBuffer)
    → length str ≡ len
    → put_t str len s ≡ done (put (text str) s)
put_t_lem str len s e = let same : (length str == len) ≡ true = ground arith in rw same refl

fraction-length :
    (sys : System) (tz : Zone) (u : ℕ)
    → length (sys.six (pos u)) ≡ 6
    → length (fraction_text sys tz (pos u)) ≡ (if valid tz then 8 else 9)
fraction-length sys tz u e = elim (Bool-cases (valid tz)) [
  | inl v ↦ rw v (omega (arith, length-append (sys.six (pos u)) (b' ' ∷ [])))
  | inr v ↦ rw v (omega (arith, length-append (sys.six (pos u)) (b'Z' ∷ b' ' ∷ [])))
]

module _ (sys : System) (tz : Zone) (s u : ℕ) (f : IsFormatted sys tz) (small : u < 10 ^ 6) where
  format_time_lem :
      (l : Locals) (b : FixedBuffer)
      → IsFresh sys tz (pos s) l
      → (l' : Locals) × (format_time sys tz (now (pos s) (pos u)) l b
          ≡ done (
            l',
            put (text (fraction_text sys tz (pos u))) (put (text (second_text sys tz (pos s))) b),
          ))
        × IsCached sys tz (pos s) l l'
  unfolding format_time
  format_time_lem l b fresh =
      let (secs, micros) = secs_since_epoch-now s u (omega arith) in
      let (l', e, c) = cache_second-IsCached sys tz s l f fresh in
      let whole = fraction-length sys tz u (f.six_width u small) in
      let fits : (length (fraction_text sys tz (pos u)) == (if valid tz then 8 else 9)) ≡ true =
        ground (arith, whole) in
      let time_fits = f.seconds_width s in
      (
        l',
        rw
            (
              secs,
              micros,
              e,
              fits,
              c.time_text,
              put_t_lem (second_text sys tz (pos s)) 17 b time_fits,
            )
            refl,
        c,
      )

log_level_name-length : (level : LogLevel) → length (log_level_name level) ≡ 6
log_level_name-length trace = refl
log_level_name-length debug = refl
log_level_name-length info = refl
log_level_name-length warn = refl
log_level_name-length error = refl
log_level_name-length fatal = refl

-- The order of what a line is made of is that of the writes.
line_items-put_all :
    (sys : System) (tz : Zone) (s u : ℕ) (level : LogLevel) (saved_errno : ℕ) (file : List ℕ)
    (line : ℤ) (items : List Item) (b : FixedBuffer)
    → put_all (line_items sys tz s u level saved_errno file line items) b
      ≡ put_all (end_items file line) (
          put_all items (
            put_all (error_items sys saved_errno) (
              put (text (log_level_name level)) (
                put (text (sys.five sys.gettid)) (
                  put
                    (text (fraction_text sys tz (pos u)))
                    (put (text (second_text sys tz (pos s))) b))))))
line_items-put_all sys tz s u level saved_errno file line items b =
    let b4 = put (text (log_level_name level)) (
      put (text (sys.five sys.gettid))
        (put (text (fraction_text sys tz (pos u))) (put (text (second_text sys tz (pos s))) b))) in
    put_all-append (error_items sys saved_errno) (items ++ end_items file line) b4
    ∙ put_all-append items (end_items file line) (put_all (error_items sys saved_errno) b4)

-- After a line the time that is kept serves every other one.
IsCached-IsFresh :
    (sys : System) (tz : Zone) (sec : ℤ) (l l' : Locals) (thread : ThreadLocals)
    → IsCached sys tz sec l l'
    → (t : ℤ) → IsFresh sys tz t (record l' { thread = thread })
IsCached-IsFresh sys tz sec l l' thread c t = elim (Bool-cases (eqb_ℤ t l'.last_second)) [
  | inr e ↦ inl e
  | inl e ↦
      inr (
        c.time_text
        ∙ ap (second_text sys tz) (sym c.its_second ∙ sym (eqb_ℤ-eq t l'.last_second e)))
]

-- A new buffer has all the room and no text.
line-text :
    (xs : List Item)
    → Are64Bit xs
    → room xs ≤ small_buffer
    → as_string (put_all xs (make small_buffer)) ≡ text_of_items xs
line-text xs h r = (put_all-Adds xs (make small_buffer) h (record { inside = omega arith }) r).added

-- For a time of s seconds and u microseconds, less than a million, formats as wide as the code
-- says, a thread whose number is kept as ThreadOp keeps it, and a kept time that is that of the
-- second s or of another second, a log line whose parts ask for no more than the 4,000
-- characters of the buffer, their numbers being of 64 bits, is given to the output as the texts
-- of its parts in order: the second, the fraction, the thread, the level, the error if there is
-- one, what the user has put in, the file and the line; all of the assertions hold, `abort`
-- follows exactly for FATAL, and the time that is then kept serves the next line of the thread
-- at every second.
pub log_line_lem :
    (sys : System) (tz : Zone) (s u : ℕ) (level : LogLevel) (saved_errno : ℕ) (file : List ℕ)
    (line : ℤ) (items : List Item) (l : Locals)
    → IsFormatted sys tz
    → u < 10 ^ 6
    → Run sys.five sys.gettid l.thread
    → IsFresh sys tz (pos s) l
    → Are64Bit (line_items sys tz s u level saved_errno file line items)
    → room (line_items sys tz s u level saved_errno file line items) ≤ small_buffer
    → (l' : Locals) × (log_line sys tz (now (pos s) (pos u)) level saved_errno file line items l
        ≡ done (
          l',
          (
            text_of_items (line_items sys tz s u level saved_errno file line items),
            number level == number fatal,
          ),
        ))
      × ((t : ℤ) → IsFresh sys tz t l')
      × Run sys.five sys.gettid l'.thread
unfolding log_line new_impl end_line finish
log_line_lem sys tz s u level saved_errno file line items l f small r fresh fit has_room =
    let b = make small_buffer in
    let b1 = put (text (second_text sys tz (pos s))) b in
    let b2 = put (text (fraction_text sys tz (pos u))) b1 in
    let b3 = put (text (sys.five sys.gettid)) b2 in
    let (l1, e, c) = format_time_lem sys tz s u f small l b fresh in
    let (n, str, len) = Run-tid sys.five r in
    (
      record l1 { thread = (tid sys.five sys.gettid l.thread).1 },
      rw
          (
            e,
            c.same_thread,
            str,
            put_t_lem (sys.five sys.gettid) (tid sys.five sys.gettid l.thread).1.tid_string_length
                b2 (sym len),
            put_t_lem (log_level_name level) 6 b3 (log_level_name-length level),
            sym (line_items-put_all sys tz s u level saved_errno file line items b),
            line-text (line_items sys tz s u level saved_errno file line items) fit has_room,
          )
          refl,
      IsCached-IsFresh sys tz (pos s) l l1 (tid sys.five sys.gettid l.thread).1 c,
      asks r,
    )

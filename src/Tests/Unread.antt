-- ===== src/Tests/Unread.antt =====
-- A process whose files in /proc can be read.
use my_net.Common.{ℕ, ◌≡◌, none, some, List, [], ◌∷◌}
use my_net.FileUtil.{bytes, regular}
use my_net.ProcessInfo.{Proc, thread_stat, current_procname, current_num_threads}
use my_net.ProcessInfo.Unread.{current_procname-num_threads}

abbrev proc : Proc
proc = record {
  read = λ i place size. bytes (b'1' ∷ []);
  fuel = 9;
  open_error = none;
  stat = regular 8;
}

abbrev digits_of : List ℕ → ℕ
digits_of text = 1

current_procname-num_threads_example :
    (thread_stat proc ≡ some [])
    × (current_procname proc ≡ some [])
    × (current_num_threads digits_of proc ≡ some 0)
current_procname-num_threads_example = current_procname-num_threads digits_of proc

-- ===== src/ProcessInfo/Unread.antt =====
-- MyNet/base/ProcessInfo.cc: what is left of /proc when nothing of it is read.
use my_net.Common.{ℕ, ◌≡◌, refl, false, Option, none, some, List, []}
use mathlib.Core.Option
use my_net.FileUtil.{
  Read, Stat, stat_error, regular, directory, special, size_to_read, read_to_string, read_file,
}
use my_net.ProcessInfo.{
  Proc, read_proc, proc_status, proc_stat, thread_stat, procname, num_threads, current_procname,
  current_num_threads,
}

unread :
    (read : Read) (fuel : ℕ) (error : Option ℕ) (stat : Stat)
    → Option.map (λ (r : List ℕ × ℕ). r.0) (read_file read fuel false 65536 error stat []) ≡ some []
unfolding read_file read_to_string size_to_read
unread read fuel (some e) stat = refl
unread read fuel none (stat_error e) = refl
unread read fuel none (regular n) = refl
unread read fuel none directory = refl
unread read fuel none special = refl

-- Without a place for the size, no file is read, whatever it is.
read_proc-Empty : (p : Proc) → read_proc p ≡ some []
read_proc-Empty p = unread p.read p.fuel p.open_error p.stat

-- Whatever the system answers for the files of /proc, `threadStat` is empty, the name of the
-- process is empty and the number of its threads is 0, as `readFile` is given no place for the
-- size of the file.
pub current_procname-num_threads :
    (atoi : List ℕ → ℕ) (p : Proc)
    → (thread_stat p ≡ some [])
      × (current_procname p ≡ some [])
      × (current_num_threads atoi p ≡ some 0)
unfolding proc_status proc_stat thread_stat current_procname current_num_threads procname
    num_threads
current_procname-num_threads atoi p = rw (read_proc-Empty p) (refl, refl, refl)

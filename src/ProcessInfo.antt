-- ===== src/ProcessInfo.antt =====
-- MyNet/base/ProcessInfo.cc: what the process reads about itself. `/proc` and the calls of the system are
-- arguments; `atoi` and `std::sort` are those of the standard library.
pub mod Names
pub mod Unread
use my_net.Common.{
  ℕ, zero, suc, ◌+◌, ◌-◌, ◌==◌, ◌&&◌, ltb, leb, if◌then◌else◌, Bool, true, false, Option, none,
  some, List, [], ◌∷◌, ◌++◌, length, take, drop,
}
use mathlib.Core.Option
use my_net.FileUtil.{Read, Stat, read_file}

-- `isdigit` of the first character.
abbrev pub starts_digit : List ℕ → Bool
starts_digit [] = false
starts_digit (c ∷ cs) = leb b'0' c && leb c b'9'

-- `scandir` calls the filter for each entry; neither filter keeps one.
unfoldable pub fd_dir_filter : List ℕ → ℕ → ℕ
fd_dir_filter name opened = if starts_digit name then opened + 1 else opened

abbrev pub scan_dir : {A : Type 0} → (List ℕ → A → A) → List (List ℕ) → A → A
scan_dir filter [] a = a
scan_dir filter (name ∷ names) a = scan_dir filter names (filter name a)

unfoldable pub opened_files : List (List ℕ) → ℕ
unfolding fd_dir_filter
opened_files names = scan_dir fd_dir_filter names 0

unfoldable pub task_dir_filter : (List ℕ → ℕ) → List ℕ → List ℕ → List ℕ
task_dir_filter atoi name pids = if starts_digit name then pids ++ (atoi name ∷ []) else pids

unfoldable pub threads : (List ℕ → ℕ) → (List ℕ → List ℕ) → List (List ℕ) → List ℕ
unfolding task_dir_filter
threads atoi sort names = sort (scan_dir (task_dir_filter atoi) names [])

-- `getrlimit` gives a limit, or fails.
unfoldable pub max_open_files : Option ℕ → List (List ℕ) → ℕ
unfolding opened_files
max_open_files none names = opened_files names
max_open_files (some limit) names = limit

-- `getpwuid_r` finds a name or not.
unfoldable pub username : Option (List ℕ) → List ℕ
username none = b'u' ∷ b'n' ∷ b'k' ∷ b'n' ∷ b'o' ∷ b'w' ∷ b'n' ∷ b'u' ∷ b's' ∷ b'e' ∷ b'r' ∷ []
username (some name) = name

-- `gethostname` fills 256 characters, of which the last one is made the end.
unfoldable pub hostname : Option (List ℕ) → List ℕ
hostname none = b'u' ∷ b'n' ∷ b'k' ∷ b'n' ∷ b'o' ∷ b'w' ∷ b'n' ∷ b'h' ∷ b'o' ∷ b's' ∷ b't' ∷ []
hostname (some name) = take 255 name

-- `readlink` gives the path, or fails.
unfoldable pub exe_path : Option (List ℕ) → List ℕ
exe_path none = []
exe_path (some path) = take 1024 path

-- `std::string::find` of a character, and of a text.
abbrev pub next : Option ℕ → Option ℕ
next none = none
next (some i) = some (suc i)

abbrev pub find : ℕ → List ℕ → Option ℕ
find c [] = none
find c (x ∷ xs) = if x == c then some 0 else next (find c xs)

abbrev pub starts_with : List ℕ → List ℕ → Bool
starts_with [] text = true
starts_with (p ∷ ps) [] = false
starts_with (p ∷ ps) (x ∷ xs) = p == x && starts_with ps xs

abbrev pub find_text : List ℕ → List ℕ → Option ℕ
find_text pattern [] = if starts_with pattern [] then some 0 else none
find_text pattern (x ∷ xs) =
    if starts_with pattern (x ∷ xs) then some 0 else next (find_text pattern xs)

abbrev between : List ℕ → Option ℕ → Option ℕ → List ℕ
between stat (some lp) (some rp) = if ltb lp rp then take (rp - lp - 1) (drop (lp + 1) stat) else []
between stat lp rp = []

unfoldable pub procname : List ℕ → List ℕ
procname stat = between stat (find b'(' stat) (find b')' stat)

-- "Threads:"
abbrev pub threads_label : List ℕ
threads_label = b'T' ∷ b'h' ∷ b'r' ∷ b'e' ∷ b'a' ∷ b'd' ∷ b's' ∷ b':' ∷ []

abbrev number_at : (List ℕ → ℕ) → List ℕ → Option ℕ → ℕ
number_at atoi status none = 0
number_at atoi status (some pos) = atoi (drop (pos + 8) status)

unfoldable pub num_threads : (List ℕ → ℕ) → List ℕ → ℕ
num_threads atoi status = number_at atoi status (find_text threads_label status)

-- What `open` and `fstat` answer for a file of /proc, and the answers of `read` with fuel for its loop.
pub record Proc : Type 0 where
  pub read : Read
  pub fuel : ℕ
  pub open_error : Option ℕ
  pub stat : Stat

-- `readFile(path, 65536, &result)` without a place for the size
abbrev pub read_proc : Proc → Option (List ℕ)
read_proc p =
    Option.map (λ (content, err). content)
      (read_file p.read p.fuel false 65536 p.open_error p.stat [])

unfoldable pub proc_status : Proc → Option (List ℕ)
unfolding read_file
proc_status p = read_proc p

unfoldable pub proc_stat : Proc → Option (List ℕ)
unfolding read_file
proc_stat p = read_proc p

unfoldable pub thread_stat : Proc → Option (List ℕ)
unfolding read_file
thread_stat p = read_proc p

-- `procname()` and `numThreads()`
unfoldable pub current_procname : Proc → Option (List ℕ)
unfolding proc_stat procname
current_procname p = Option.map procname (proc_stat p)

unfoldable pub current_num_threads : (List ℕ → ℕ) → Proc → Option ℕ
unfolding proc_status num_threads
current_num_threads atoi p = Option.map (num_threads atoi) (proc_status p)

-- ===== src/ThreadOp.antt =====
-- MyNet/base/ThreadOp.h and Thread.cc: what a thread keeps about itself in its thread-local variables.
-- `gettid` is the number that the kernel has for the thread that calls, and `five` is what `snprintf`
-- makes of a number with "%5d ".
pub mod Cached
use my_net.Common.{ℕ, ◌==◌, if◌then◌else◌, Bool, List, [], ◌∷◌, length}

pub record ThreadLocals : Type 0 where
  pub cached_tid : ℕ
  pub tid_string : List ℕ
  pub tid_string_length : ℕ
  pub thread_name : List ℕ

abbrev pub init : ThreadLocals
init = record {
  cached_tid = 0;
  tid_string = [];
  tid_string_length = 6;
  thread_name = b'd' ∷ b'e' ∷ b'f' ∷ b'a' ∷ b'u' ∷ b'l' ∷ b't' ∷ [];
}

abbrev pub main_name : List ℕ
main_name = b'm' ∷ b'a' ∷ b'i' ∷ b'n' ∷ []

module _ (five : ℕ → List ℕ) (gettid : ℕ) where
  unfoldable pub cache_tid : ThreadLocals → ThreadLocals
  cache_tid t =
      if t.cached_tid == 0
      then record t {
        cached_tid = gettid;
        tid_string = five gettid;
        tid_string_length = length (five gettid);
      }
      else t

  unfoldable pub tid : ThreadLocals → ℕ × ThreadLocals
  unfolding cache_tid
  tid t = let t' = if t.cached_tid == 0 then cache_tid t else t in (t'.cached_tid, t')

  -- In the child, after `fork`.
  unfoldable pub after_fork : ThreadLocals → ThreadLocals
  unfolding tid
  after_fork t = (tid (record t { cached_tid = 0; thread_name = main_name })).1

  -- The initializer of the thread that loads the library.
  unfoldable pub initialize : ThreadLocals → ThreadLocals
  unfolding tid
  initialize t = (tid (record t { thread_name = main_name })).1

  unfoldable pub is_main_thread : ℕ → ThreadLocals → Bool × ThreadLocals
  unfolding tid
  is_main_thread getpid t = let (n, t') = tid t in (n == getpid, t')

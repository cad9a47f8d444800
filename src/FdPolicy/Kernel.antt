-- ===== src/FdPolicy/Kernel.antt =====
-- What the kernel does with file descriptors, as the manual pages of dup(2), close_range(2),
-- fcntl(2) and close(2) have it. The kernel is a parameter of the code.
use layer_cake.Prelude.{
  ◌-◌, ◌^◌, ℕ, ◌≡◌, ◌≢◌, Bool, true, false, ◌&&◌, Option, none, some, ◌==◌, leb, if◌then◌else◌, ok,
  err,
}
use layer_cake.Prelude.Int.{ℤ, pos}
use layer_cake.Meowix.Errors.{SyscallError}
use layer_cake.Meowix.Act.{Call}

-- `c_uint::MAX`
abbrev pub uint_max : ℕ
uint_max = 2 ^ 32 - 1

-- An open file descriptor: the file description that it refers to, and the close-on-exec flag.
pub record FdEntry : Type 0 where
  pub description : ℕ
  pub cloexec : Bool

abbrev pub Table : Type 0
Table = ℕ → Option FdEntry

-- The flag of an entry, set to a value.
abbrev pub with_flag : Bool → Option FdEntry → Option FdEntry
with_flag b none = none
with_flag b (some e) = some (record { description = e.description; cloexec = b })

abbrev pub put : ℕ → Option FdEntry → Table → Table
put n v t k = if k == n then v else t k

-- close_range with `CLOSE_RANGE_CLOEXEC`, on the numbers from `first` to `last`
abbrev pub mark : ℕ → ℕ → Table → Table
mark first last t k = if leb first k && leb k last then with_flag true (t k) else t k

pub record FdKernel : Type 1 where
  pub State : Type 0
  pub entry : State → Table
  -- dup3(old, new, 0), close_range(first, last, CLOSE_RANGE_CLOEXEC), fcntl(fd, F_DUPFD_CLOEXEC, 0)
  pub dup3 : ℕ → ℤ → Call State (Unit {0})
  pub close_range : ℕ → ℕ → Call State (Unit {0})
  pub dupfd_cloexec : ℕ → Call State ℕ
  -- the drop of an `OwnedFd`
  pub close : ℕ → State → State
  -- dup3 needs an open source, and makes the target a copy of it that stays open over exec.
  pub dup3_done :
      (old new : ℕ) (s : State)
      → (dup3 old (pos new) s).0 ≡ ok tt
      → (entry s old ≢ none)
        × (entry (dup3 old (pos new) s).1 ≡ put new (with_flag false (entry s old)) (entry s))
  pub dup3_failed :
      (old new : ℕ) (s : State) (e : SyscallError)
      → (dup3 old (pos new) s).0 ≡ err e
      → entry (dup3 old (pos new) s).1 ≡ entry s
  pub close_range_done :
      (first last : ℕ) (s : State)
      → (close_range first last s).0 ≡ ok tt
      → entry (close_range first last s).1 ≡ mark first last (entry s)
  pub close_range_failed :
      (first last : ℕ) (s : State) (e : SyscallError)
      → (close_range first last s).0 ≡ err e
      → entry (close_range first last s).1 ≡ entry s
  -- F_DUPFD_CLOEXEC takes a number that is free.
  pub dupfd_done :
      (fd n : ℕ) (s : State)
      → (dupfd_cloexec fd s).0 ≡ ok n
      → (entry s n ≡ none)
        × (entry (dupfd_cloexec fd s).1 ≡ put n (with_flag true (entry s fd)) (entry s))
  pub dupfd_failed :
      (fd : ℕ) (s : State) (e : SyscallError)
      → (dupfd_cloexec fd s).0 ≡ err e
      → entry (dupfd_cloexec fd s).1 ≡ entry s
  pub close_done : (fd : ℕ) (s : State) → entry (close fd s) ≡ put fd none (entry s)

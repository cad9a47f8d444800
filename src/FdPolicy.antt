-- ===== src/FdPolicy.antt =====
-- File descriptor policy: crates/bubblebox/src/platform/linux/policy/fd.rs.
pub mod Kernel
pub mod Apply
pub mod Table
pub mod Deferred
pub mod Validity
pub mod Loop
pub mod Refine
pub mod Pipe
pub mod Spec
pub mod Ends
pub mod Edits
use layer_cake.Prelude.{
  ℕ, ◌+◌, ◌≡◌, Bool, true, false, not, ◌&&◌, ◌||◌, Option, List, [], ◌∷◌, ◌==◌, if◌then◌else◌,
}
use layer_cake.Prelude.Int.{ℤ, pos, negsuc, cmp}
use layer_cake.SortedMap.{insert, remove}

-- `RawFd`, an `i32`
abbrev pub RawFd : Type 0
RawFd = ℤ

-- `Action`; a `BorrowedFd` is the number of an open file descriptor.
pub data Action : Type 0 where
  ignore : Action
  map : ℕ → Action

abbrev pub Policy : Type 0
Policy = List (RawFd × Action)

unfoldable pub fd_eq : RawFd → RawFd → Bool
fd_eq (pos a) (pos b) = a == b
fd_eq (negsuc a) (negsuc b) = a == b
fd_eq _ _ = false

-- The set `sources`, as the list of its elements.
unfoldable pub sources : Policy → List RawFd
sources [] = []
sources ((fd, map source) ∷ rest) = pos source ∷ sources rest
sources ((fd, ignore) ∷ rest) = sources rest

unfoldable pub contains : List RawFd → RawFd → Bool
unfolding fd_eq
contains [] fd = false
contains (s ∷ ss) fd = fd_eq s fd || contains ss fd

abbrev pub is_negative : RawFd → Bool
is_negative (pos n) = false
is_negative (negsuc n) = true

abbrev pub is_ignore : Action → Bool
is_ignore ignore = true
is_ignore (map source) = false

-- The loop of `is_valid_fd_policy`.
unfoldable pub valid_loop : List RawFd → Policy → Bool
valid_loop ss [] = true
valid_loop ss ((fd, action) ∷ rest) =
    let others = valid_loop ss rest in
    if is_negative fd
    then false
    else if is_ignore action
    then others
    else if contains ss fd
    then false
    else others

-- `is_valid_fd_policy`
unfoldable pub is_valid_fd_policy : Policy → Bool
unfolding sources valid_loop
is_valid_fd_policy policy = valid_loop (sources policy) policy

-- The methods of `FdPolicy`.
unfoldable pub empty : Policy
empty = []

unfoldable pub ignore_fd : RawFd → Policy → Policy
ignore_fd fd policy = insert cmp fd ignore policy

unfoldable pub map_fd : ℕ → RawFd → Policy → Policy
map_fd from to policy = insert cmp to (map from) policy

unfoldable pub close : RawFd → Policy → Policy
close fd policy = remove cmp fd policy

unfoldable pub clear : Policy → Policy
clear policy = []

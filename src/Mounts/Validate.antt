-- ===== src/Mounts/Validate.antt =====
-- `is_valid_mount_tree` of crates/bubblebox/src/platform/linux/policy/mounts.rs.
use layer_cake.Prelude.{ℕ, ◌+◌, Bool, not, Option, none, some, List, [], ◌∷◌, length, if◌then◌else◌}
use layer_cake.Paths.Guest.{GuestInner, starts_with}
use layer_cake.Mounts.{MountInner, Mount, UpperDirs, is_synthetic}

abbrev pub Entries : Type 0
Entries = List (GuestInner × Mount)

abbrev pub Stack : Type 0
Stack = List (GuestInner × Bool)

-- What an overlay adds to the count.
abbrev pub upper_count : Option UpperDirs → ℕ
upper_count none = 0
upper_count (some u) = 1

unfoldable pub host_mounts : MountInner → ℕ
host_mounts (MountInner.overlay o) =
    length o.lowerdirs + length o.datadirs + upper_count o.upperdirs
host_mounts (MountInner.bind b) = 0
host_mounts _ = 0

-- `while let Some((current, _)) = stack.pop() && !destination.starts_with(current) {}`: the entry
-- that ends the loop is popped too.
unfoldable pub unwind : GuestInner → Stack → Stack
unwind destination [] = []
unwind destination ((current, s) ∷ stack) =
    if not (starts_with destination current) then unwind destination stack else stack

-- The `if let` on the top of the stack; `none` is the `return None`. The top is the head.
unfoldable pub enter : GuestInner → Stack → Option Stack
unfolding unwind
enter destination [] = some []
enter destination ((current, synthetic) ∷ stack) =
    if starts_with destination current
    then (if not synthetic then none else some ((current, synthetic) ∷ stack))
    else some (unwind destination ((current, synthetic) ∷ stack))

unfoldable pub validate_loop : Stack → ℕ → Entries → Option ℕ
validate_loop stack count [] = some count
validate_loop stack count ((destination, source) ∷ rest) = elim (enter destination stack) [
  | none ↦ none
  | some stack' ↦
      validate_loop ((destination, is_synthetic source) ∷ stack') (count + host_mounts source.inner)
        rest
]

-- `is_valid_mount_tree`
unfoldable pub is_valid_mount_tree : Entries → Option ℕ
unfolding validate_loop
is_valid_mount_tree mounts = validate_loop [] 0 mounts

-- ===== src/Paths/Guest.antt =====
-- `Guest` of crates/bubblebox/src/paths.rs and `GuestInner` of
-- crates/bubblebox/src/platform/linux/paths.rs. `Guest` only wraps `GuestInner`.
use layer_cake.Prelude.{
  ℕ, ◌+◌, Bool, true, false, not, List, [], ◌∷◌, ◌++◌, ◌==◌, ltb, Ordering, if◌then◌else◌, Bytes,
  length, all, Result, ok, err, ok_or, map_err, guard, ◌>>=◌, ◌>>◌,
}
use layer_cake.Paths.Std.{
  Component, prefix, root_dir, cur_dir, parent_dir, normal, slash, is_absolute, components, push,
  collect, file_name, parent, component_eq, cmp_components,
}

-- crates/bubblebox/src/errors.rs, `GuestPath`
pub data GuestPathError : Type 0 where
  path_not_absolute path_contains_parent path_contains_prefix : GuestPathError
  no_parent_directory no_file_name invalid : GuestPathError

-- A `CString` is the bytes before its null byte.
pub record GuestInner : Type 0 where
  pub parent_dir : Bytes
  pub file_name : Bytes

-- crates/meowix/src/util.rs: `PATH_MAX` and `PATH_COMPONENT_MAX` (Linux: 4096 and NAME_MAX + 1)
abbrev pub path_max : ℕ
path_max = 4096

abbrev pub path_component_max : ℕ
path_component_max = 256

-- crates/meowix/src/errors.rs, `WithCStrError`
pub data WithCStrError : Type 0 where
  c_str_buffer_too_small from_bytes_with_nul_error : WithCStrError

-- `CStr::from_bytes_with_nul` on bytes with a null byte behind them.
abbrev pub has_no_null : Bytes → Bool
has_no_null s = all (λ c. not (c == 0)) s

-- `WithCStr for &[u8]`, with a buffer of `n` bytes; the closure is given the bytes of the C string.
unfoldable pub with_c_str {ℓ} :
    {A : Type ℓ} → ℕ → Bytes → (Bytes → Result A WithCStrError) → Result A WithCStrError
with_c_str n s f = do
  guard (ltb (length s) n) c_str_buffer_too_small
  guard (has_no_null s) from_bytes_with_nul_error
  f s

-- The loop of `GuestInner::new`.
unfoldable pub normalize : Bytes → List Component → Result Bytes GuestPathError
normalize buf [] = ok buf
normalize buf (root_dir ∷ cs) = normalize buf cs
normalize buf (cur_dir ∷ cs) = normalize buf cs
normalize buf (normal c ∷ cs) = normalize (push buf c) cs
normalize buf (parent_dir ∷ cs) = err path_contains_parent
normalize buf (prefix ∷ cs) = err path_contains_prefix

abbrev owned : ℕ → Bytes → Result Bytes GuestPathError
owned n s = map_err (with_c_str n s ok) (λ _. invalid)

-- What `GuestInner::new` returns for a normalized path.
unfoldable pub from_normalized : Bytes → Result GuestInner GuestPathError
unfolding with_c_str
from_normalized path = do
  up ← ok_or (parent path) no_parent_directory
  dir ← owned path_max up
  last ← ok_or (file_name path) no_file_name
  name ← owned path_component_max last
  ok (record { parent_dir = dir; file_name = name })

-- `GuestInner::new`
unfoldable pub new : Bytes → Result GuestInner GuestPathError
unfolding normalize from_normalized
new path = do
  guard (is_absolute path) path_not_absolute
  normalized ← normalize (slash ∷ []) (components path)
  from_normalized normalized

-- `GuestInner::with_c_str`: the path as one C string, in a buffer of `n` bytes.
unfoldable pub joined : GuestInner → Bytes
joined g = g.parent_dir ++ (slash ∷ g.file_name)

unfoldable pub guest_with_c_str {ℓ} :
    {A : Type ℓ} → ℕ → GuestInner → (Bytes → Result A WithCStrError) → Result A WithCStrError
unfolding joined
guest_with_c_str n g f = do
  guard (ltb (length g.parent_dir + length g.file_name + 1) n) c_str_buffer_too_small
  guard (has_no_null (joined g)) from_bytes_with_nul_error
  f (joined g)

-- `GuestInner::components`
unfoldable pub guest_components : GuestInner → List Component
guest_components g = components g.parent_dir ++ (normal g.file_name ∷ [])

-- The `while let` of `GuestInner::starts_with`: the left iterator moves first, and what the right
-- one has left is tested at the end.
unfoldable pub starts_with_loop : List Component → List Component → Bool
starts_with_loop [] [] = true
starts_with_loop [] (r ∷ rs) = false
starts_with_loop (l ∷ ls) [] = true
starts_with_loop (l ∷ ls) (r ∷ rs) = if component_eq l r then starts_with_loop ls rs else false

-- `GuestInner::starts_with` and `Guest::starts_with`
unfoldable pub starts_with : GuestInner → GuestInner → Bool
unfolding guest_components starts_with_loop
starts_with self other = starts_with_loop (guest_components self) (guest_components other)

-- `Ord for GuestInner`
unfoldable pub cmp : GuestInner → GuestInner → Ordering
unfolding guest_components
cmp self other = cmp_components (guest_components self) (guest_components other)

-- `nearest_ancestor`
unfoldable pub common : List Component → List Component → List Component
common (a ∷ as') (b ∷ bs) = if component_eq a b then a ∷ common as' bs else []
common [] bs = []
common as' [] = []

unfoldable pub nearest_ancestor : Bytes → Bytes → Bytes
unfolding common
nearest_ancestor ax bx = collect (common (components ax) (components bx))

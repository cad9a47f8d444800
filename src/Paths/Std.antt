-- ===== src/Paths/Std.antt =====
-- What the program uses of `std::path` on Unix: the components of a path, their order, and
-- `PathBuf::push`. A path is its bytes.
use layer_cake.Prelude.{
  ℕ, Bool, true, false, not, Option, none, some, List, [], ◌∷◌, ◌++◌, ◌==◌, compare, Ordering,
  if◌then◌else◌, Bytes, bytes_eq,
}

-- `Component`. A Windows prefix cannot occur on Unix, so it carries no data.
pub data Component : Type 0 where
  prefix root_dir cur_dir parent_dir : Component
  normal : Bytes → Component

abbrev pub slash : ℕ
slash = b'/'

abbrev pub dot : ℕ
dot = b'.'

-- The pieces between the slashes; n slashes give n + 1 pieces.
abbrev pub cons_head : ℕ → List Bytes → List Bytes
cons_head c [] = (c ∷ []) ∷ []
cons_head c (s ∷ ss) = (c ∷ s) ∷ ss

unfoldable pub split_slash : Bytes → List Bytes
split_slash [] = [] ∷ []
split_slash (c ∷ cs) = if c == slash then [] ∷ split_slash cs else cons_head c (split_slash cs)

abbrev pub is_dot : Bytes → Bool
is_dot s = bytes_eq s (dot ∷ [])

-- A piece behind the first: empty pieces and `.` leave no component.
unfoldable pub piece : Bytes → List Component
piece s =
    if bytes_eq s []
    then []
    else if is_dot s
    then []
    else if bytes_eq s (dot ∷ dot ∷ [])
    then parent_dir ∷ []
    else normal s ∷ []

unfoldable pub pieces : List Bytes → List Component
pieces [] = []
pieces (s ∷ ss) = piece s ++ pieces ss

-- `Path::is_absolute`
unfoldable pub is_absolute : Bytes → Bool
is_absolute [] = false
is_absolute (c ∷ cs) = c == slash

-- The first piece of a relative path: a leading `.` is kept.
unfoldable pub relative : List Bytes → List Component
unfolding pieces
relative [] = []
relative (s ∷ ss) = (if is_dot s then cur_dir ∷ [] else piece s) ++ pieces ss

-- `Path::components`
unfoldable pub components : Bytes → List Component
unfolding split_slash pieces relative
components p = if is_absolute p then root_dir ∷ pieces (split_slash p) else relative (split_slash p)

-- `Component::as_os_str`
unfoldable pub as_os_str : Component → Bytes
as_os_str prefix = []
as_os_str root_dir = slash ∷ []
as_os_str cur_dir = dot ∷ []
as_os_str parent_dir = dot ∷ dot ∷ []
as_os_str (normal s) = s

-- Whether the last byte is there and is no slash.
unfoldable pub needs_separator : Bytes → Bool
needs_separator [] = false
needs_separator (c ∷ []) = not (c == slash)
needs_separator (c ∷ d ∷ cs) = needs_separator (d ∷ cs)

-- `PathBuf::push`: an absolute path replaces the buffer.
unfoldable pub push : Bytes → Bytes → Bytes
unfolding is_absolute needs_separator
push buf p =
    if is_absolute p then p else if needs_separator buf then buf ++ (slash ∷ p) else buf ++ p

unfoldable pub push_all : Bytes → List Component → Bytes
unfolding push as_os_str
push_all buf [] = buf
push_all buf (c ∷ cs) = push_all (push buf (as_os_str c)) cs

-- `PathBuf::from_iter`
unfoldable pub collect : List Component → Bytes
unfolding push_all
collect cs = push_all [] cs

-- The components but the last, and the last.
unfoldable pub unsnoc {ℓ} : {A : Type ℓ} → List A → Option (List A × A)
unsnoc [] = none
unsnoc (x ∷ xs) = elim (unsnoc xs) [ none ↦ some ([], x) | some (ys, y) ↦ some (x ∷ ys, y) ]

-- `Path::file_name`: the last component, if it is a normal one.
unfoldable pub last_name : Component → Option Bytes
last_name (normal s) = some s
last_name root_dir = none
last_name _ = none

unfoldable pub file_name : Bytes → Option Bytes
unfolding components unsnoc last_name
file_name p = elim (unsnoc (components p)) [ none ↦ none | some (_, c) ↦ last_name c ]

-- `Path::parent`: what stands before the last component, if that is not the root. The library cuts
-- the buffer; on a buffer that `push` has built that is the path of the other components.
unfoldable pub is_below_root : Component → Bool
is_below_root root_dir = false
is_below_root prefix = false
is_below_root _ = true

unfoldable pub parent : Bytes → Option Bytes
unfolding components unsnoc is_below_root collect
parent p = elim (unsnoc (components p)) [
  | none ↦ none
  | some (cs, c) ↦ if is_below_root c then some (collect cs) else none
]

-- `PartialEq for Component`
unfoldable pub component_eq : Component → Component → Bool
component_eq prefix prefix = true
component_eq root_dir root_dir = true
component_eq cur_dir cur_dir = true
component_eq parent_dir parent_dir = true
component_eq (normal a) (normal b) = bytes_eq a b
component_eq _ _ = false

-- `Ord for OsStr`: bytes in lexicographic order.
abbrev pub and_then : Ordering → Ordering → Ordering
and_then Ordering.eq second = second
and_then first _ = first

unfoldable pub cmp_bytes : Bytes → Bytes → Ordering
cmp_bytes [] [] = Ordering.eq
cmp_bytes [] (y ∷ ys) = Ordering.lt
cmp_bytes (x ∷ xs) [] = Ordering.gt
cmp_bytes (x ∷ xs) (y ∷ ys) = and_then (compare x y) (cmp_bytes xs ys)

-- The derived order of `Component`: by constructor, then by name.
abbrev pub rank : Component → ℕ
rank prefix = 0
rank root_dir = 1
rank cur_dir = 2
rank parent_dir = 3
rank (normal s) = 4

abbrev pub name_of : Component → Bytes
name_of (normal s) = s
name_of root_dir = []
name_of _ = []

unfoldable pub cmp_component : Component → Component → Ordering
unfolding cmp_bytes
cmp_component a b = and_then (compare (rank a) (rank b)) (cmp_bytes (name_of a) (name_of b))

-- `Iterator::cmp`
unfoldable pub cmp_components : List Component → List Component → Ordering
unfolding cmp_component
cmp_components [] [] = Ordering.eq
cmp_components [] (y ∷ ys) = Ordering.lt
cmp_components (x ∷ xs) [] = Ordering.gt
cmp_components (x ∷ xs) (y ∷ ys) = and_then (cmp_component x y) (cmp_components xs ys)

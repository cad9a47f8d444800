-- ===== src/Examples/GuestPaths.antt =====
-- Guest paths at concrete inputs, in ASCII: `/` is 47, `.` is 46, `a` is 97.
use layer_cake.Prelude.{bytes_eq, ◌≡◌, ◌↔◌, refl, true, List, [], ◌∷◌, ◌++◌, Bytes, ok}
use layer_cake.Paths.Std.{
  Component, is_absolute, components, split_slash, piece, pieces, relative, push, push_all, collect,
  unsnoc, as_os_str, needs_separator, last_name, file_name, is_below_root, parent, component_eq,
  cmp_bytes, cmp_component, cmp_components,
}
use layer_cake.Paths.Guest.{
  GuestInner, normalize, from_normalized, with_c_str, new, joined, guest_components,
  starts_with_loop, starts_with, cmp,
}
use layer_cake.Paths.Order.{starts_with_iff, starts_with-between}
use layer_cake.Paths.RoundTrip.{new-joined}
use layer_cake.Paths.Errors.{NewOutcome, new_outcome}

-- `/a`, `/a/b` and `/a/b/c`, and `/./a//b/`
abbrev pub path_a : GuestInner
path_a = record { parent_dir = 47 ∷ []; file_name = 97 ∷ [] }

abbrev pub path_ab : GuestInner
path_ab = record { parent_dir = 47 ∷ 97 ∷ []; file_name = 98 ∷ [] }

abbrev pub path_abc : GuestInner
path_abc = record { parent_dir = 47 ∷ 97 ∷ 47 ∷ 98 ∷ []; file_name = 99 ∷ [] }

abbrev spelled : Bytes
spelled = 47 ∷ 46 ∷ 47 ∷ 97 ∷ 47 ∷ 47 ∷ 98 ∷ 47 ∷ []

spelled-new : new spelled ≡ ok path_ab
unfolding new normalize from_normalized with_c_str is_absolute components split_slash piece pieces
    relative push as_os_str needs_separator unsnoc last_name file_name is_below_root parent collect
    push_all bytes_eq
spelled-new = refl

new-joined_example : new (joined path_ab) ≡ ok path_ab
new-joined_example = new-joined spelled path_ab spelled-new

new_outcome_example : NewOutcome (47 ∷ 46 ∷ 46 ∷ [])
new_outcome_example = new_outcome (47 ∷ 46 ∷ 46 ∷ [])

starts_with_iff_example :
    (starts_with path_abc path_ab ≡ true)
    ↔ ((rest : List Component) × (guest_components path_abc ≡ guest_components path_ab ++ rest))
starts_with_iff_example = starts_with_iff path_abc path_ab

starts_with-between_example : starts_with path_ab path_a ≡ true
unfolding cmp starts_with starts_with_loop guest_components components is_absolute split_slash piece
    pieces relative component_eq cmp_bytes cmp_component cmp_components bytes_eq
starts_with-between_example = starts_with-between path_a path_ab path_abc refl refl refl

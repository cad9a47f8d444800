-- ===== src/Examples/FdPolicies.antt =====
-- File descriptor policies and limits at concrete inputs.
use layer_cake.Prelude.{
  ◌^◌, ◌↔◌, ◌-◌, ◌≡◌, ◌≢◌, refl, true, false, none, some, [], ◌∷◌, ltb, if◌then◌else◌, arith,
}
use layer_cake.Prelude.Int.{pos, cmp, to_unsigned}
use layer_cake.SortedMap.{lookup, IsSorted}
use layer_cake.Meowix.Act.{done, stuck, retry_on_interrupt}
use layer_cake.FdPolicy.{
  ignore, map, Policy, fd_eq, sources, contains, valid_loop, is_valid_fd_policy, ignore_fd, map_fd,
  close,
}
use layer_cake.FdPolicy.Kernel.{Table, with_flag}
use layer_cake.FdPolicy.Apply.{
  apply_action, mark_between, apply_loop, apply_marks, remap, apply_file_descriptor_policy,
}
use layer_cake.FdPolicy.Refine.{apply-planned}
use layer_cake.FdPolicy.Pipe.{apply-keeps_pipe}
use layer_cake.FdPolicy.Ends.{apply-ends}
use layer_cake.FdPolicy.Spec.{IsValid, is_valid_fd_policy_iff}
use layer_cake.FdPolicy.Edits.{edit-lookup}
use layer_cake.Rlimits.{Rlimits}
use layer_cake.Rlimits.Limit
use layer_cake.Rlimits.Builder
use layer_cake.Rlimits.Apply.{rlimit_nofile, apply_resource_limit_policy}
use layer_cake.Rlimits.Applied.{apply_resource_limit_policy-limits}
use layer_cake.Examples.Kernels.{
  busy_kernel, busy_dup3-steady, busy_dup3-falls, table_kernel, limit_kernel,
}

-- Ten open file descriptors, of which none is close-on-exec.
abbrev ten : Table
ten k = if ltb k 10 then some (record { description = k; cloexec = false }) else none

-- 1 is mapped from 5, 2 is left alone, and the guest pipe's number 7 is mapped from 5.
abbrev policy : Policy
policy = (pos 1, map 5) ∷ (pos 2, ignore) ∷ (pos 7, map 5) ∷ []

policy-valid : is_valid_fd_policy policy ≡ true
unfolding is_valid_fd_policy valid_loop sources contains fd_eq
policy-valid = refl

policy-IsSorted : IsSorted cmp policy
unfolding cmp
policy-IsSorted = ((refl, (refl, tt)), ((refl, tt), (tt, tt)))

policy-done : (apply_file_descriptor_policy table_kernel 1 policy 7 ten).0 ≡ done tt
unfolding apply_file_descriptor_policy apply_marks apply_loop apply_action mark_between remap
    retry_on_interrupt fd_eq to_unsigned
policy-done = refl

five_open : ten 5 ≢ none
five_open e = cc

seven_open : ten 7 ≢ none
seven_open e = cc

other_pipe : 1 ≢ (apply_file_descriptor_policy table_kernel 1 policy 7 ten).2
unfolding apply_file_descriptor_policy apply_marks apply_loop apply_action mark_between remap fd_eq
    to_unsigned retry_on_interrupt
other_pipe e = omega (arith, e)

apply-planned_example :
    (apply_file_descriptor_policy table_kernel 1 policy 7 ten).1 1
    ≡ some (record { description = 5; cloexec = false })
unfolding lookup cmp
apply-planned_example =
    apply-planned table_kernel 1 policy 7 ten policy-valid policy-IsSorted
      (omega arith, (omega arith, (omega arith, tt)))
      ((omega arith, five_open), ((omega arith, five_open), tt)) policy-done 1 (omega arith)
      other_pipe

apply-keeps_pipe_example :
    with_flag true (
      (apply_file_descriptor_policy table_kernel 1 policy 7 ten).1
        (apply_file_descriptor_policy table_kernel 1 policy 7 ten).2)
    ≡ with_flag true (ten 7)
apply-keeps_pipe_example =
    apply-keeps_pipe table_kernel 1 policy 7 ten policy-valid policy-IsSorted
      (omega arith, (omega arith, (omega arith, tt))) seven_open

is_valid_fd_policy_iff_example : (is_valid_fd_policy policy ≡ true) ↔ IsValid policy
is_valid_fd_policy_iff_example = is_valid_fd_policy_iff policy

edit-lookup_example :
    (IsSorted cmp (ignore_fd (pos 3) policy)
      × (lookup cmp (pos 2) (ignore_fd (pos 3) policy) ≡ some ignore))
    × (IsSorted cmp (map_fd 5 (pos 3) policy)
        × (lookup cmp (pos 2) (map_fd 5 (pos 3) policy) ≡ some ignore))
    × (IsSorted cmp (close (pos 3) policy)
        × (lookup cmp (pos 2) (close (pos 3) policy) ≡ some ignore))
unfolding lookup cmp
edit-lookup_example = edit-lookup policy 5 (pos 3) (pos 2) policy-IsSorted

-- Two limits are set, the soft one of `nofile` without a bound.
abbrev limits : Rlimits
unfolding Builder.default Builder.nofile Builder.core Limit.soft_infinity Limit.hard
    Builder.or_default
limits =
    Builder.nofile (λ l. Limit.soft_infinity (Limit.hard 64 l))
      (Builder.core (λ l. l) Builder.default)

limits-done : (apply_resource_limit_policy limit_kernel limits (λ r. (7, 7))).0 ≡ done tt
unfolding apply_resource_limit_policy limits
limits-done = refl

apply_resource_limit_policy-limits_example :
    (apply_resource_limit_policy limit_kernel limits (λ r. (7, 7))).1 rlimit_nofile
    ≡ (2 ^ 64 - 1, 64)
unfolding limits Limit.into_raw Limit.soft_infinity Limit.hard Limit.default Limit.new
apply_resource_limit_policy-limits_example =
    apply_resource_limit_policy-limits limit_kernel limits (λ r. (7, 7)) rlimit_nofile limits-done

-- dup3 is interrupted twice.
apply-ends_example : (apply_file_descriptor_policy busy_kernel 3 policy 7 (ten, 2)).0 ≢ stuck
apply-ends_example =
    apply-ends busy_kernel 3 (λ s. s.1) (λ old new s. busy_dup3-steady old new s.0 s.1)
      (λ old new s h. busy_dup3-falls old new s.0 s.1 h) (λ first last s. omega arith)
      (λ fd s. omega arith) (λ fd s. omega arith) policy 7 (ten, 2) (omega arith)

-- ===== src/FdPolicy/Apply.antt =====
-- `apply_file_descriptor_policy` of crates/bubblebox/src/platform/linux/spawn/fd.rs.
use layer_cake.Prelude.{err, ok, ℕ, ◌+◌, ◌-◌, Option, none, some, [], ◌∷◌, ltb, if◌then◌else◌}
use layer_cake.Prelude.Int.{pos, to_unsigned}
use layer_cake.Meowix.Errors.{SyscallError}
use layer_cake.Meowix.Act.{
  Act, Outcome, done, failed, stuck, ◌>>=◌, ◌>>◌, pure, once, retry_on_interrupt,
}
use layer_cake.FdPolicy.{RawFd, Action, ignore, map, Policy, fd_eq}
use layer_cake.FdPolicy.Kernel.{uint_max, FdKernel}

abbrev pub saturating_add : ℕ → ℕ → ℕ
saturating_add a b = if ltb (a + b) uint_max then a + b else uint_max

module _ (kernel : FdKernel) (fuel : ℕ) where
  open kernel use {State, dup3, close_range, dupfd_cloexec, close}

  -- The `if let Action::Map`: the mapping onto the pipe is put off.
  unfoldable pub apply_action : ℕ → RawFd → Action → Option ℕ → Act State SyscallError (Option ℕ)
  unfolding fd_eq
  apply_action pipe fd ignore deferred = pure deferred
  apply_action pipe fd (map source) deferred =
      if fd_eq (pos pipe) fd
      then pure (some source)
      else (retry_on_interrupt fuel (dup3 source fd) >> pure deferred)

  -- The numbers between the entry before and this one.
  unfoldable pub mark_between : ℕ → ℕ → Act State SyscallError (Unit {0})
  mark_between start fd = if ltb start fd then once (close_range start (fd - 1)) else pure tt

  unfoldable pub apply_loop : ℕ → Policy → ℕ → Option ℕ → Act State SyscallError (ℕ × Option ℕ)
  unfolding to_unsigned
  apply_loop pipe [] start deferred = pure (start, deferred)
  apply_loop pipe ((fd, action) ∷ rest) start deferred = do
    deferred' ← apply_action pipe fd action deferred
    mark_between start (to_unsigned 32 fd)
    apply_loop pipe rest (saturating_add (to_unsigned 32 fd) 1) deferred'

  -- The remapping of the pipe. The assignment drops the old descriptor of the pipe. The pipe's
  -- number is returned with every outcome.
  unfoldable pub remap : ℕ → Option ℕ → State → Outcome (Unit {0}) SyscallError × State × ℕ
  remap pipe none s = (done tt, s, pipe)
  remap pipe (some source) s =
      let r = dupfd_cloexec pipe s in
      elim r.0 [
        | ok pipe' ↦
            let d = retry_on_interrupt fuel (dup3 source (pos pipe)) (close pipe r.1) in
            (d.0, d.1, pipe')
        | err e ↦ (failed e, r.1, pipe)
      ]

  abbrev pub remap_after :
      ℕ → Outcome (ℕ × Option ℕ) SyscallError → State → Outcome (Unit {0}) SyscallError × State × ℕ
  remap_after pipe (done (start, deferred)) s = remap pipe deferred s
  remap_after pipe (failed e) s = (failed e, s, pipe)
  remap_after pipe stuck s = (stuck, s, pipe)

  -- `apply_file_descriptor_policy`; a failure is wrapped as `PostSpawnGuest::Syscall`.
  unfoldable pub apply_marks : ℕ → Policy → Act State SyscallError (ℕ × Option ℕ)
  unfolding apply_loop
  apply_marks pipe policy = do
    (start, deferred) ← apply_loop pipe policy 0 none
    once (close_range start uint_max)
    pure (start, deferred)

  unfoldable pub apply_file_descriptor_policy :
      Policy → ℕ → State → Outcome (Unit {0}) SyscallError × State × ℕ
  unfolding apply_marks remap
  apply_file_descriptor_policy policy pipe s =
      let r = apply_marks pipe policy s in remap_after pipe r.0 r.1

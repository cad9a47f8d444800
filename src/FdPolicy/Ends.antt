-- ===== src/FdPolicy/Ends.antt =====
-- `apply_file_descriptor_policy` comes to an end: its loops over dup3 are retried only while the
-- call is interrupted.
use layer_cake.Prelude.{
  ℕ, ◌-◌, ◌<◌, ◌≤◌, ◌≡◌, ◌≢◌, refl, true, Option, none, some, [], ◌∷◌, ltb, Bool-cases, inl, inr,
  arith,
}
use layer_cake.Prelude.Int.{ℤ, pos, to_unsigned}
use layer_cake.Meowix.Errors.{SyscallError}
use layer_cake.Meowix.Act.{
  Act, Outcome, done, failed, stuck, Call, continue, is_intr, ◌>>=◌, pure, once, settle-ne-stuck,
  once-keeps, retry_on_interrupt, retry_on_interrupt_ends, retry_on_interrupt_keeps,
}
use layer_cake.FdPolicy.{RawFd, Action, ignore, map, Policy, fd_eq}
use layer_cake.FdPolicy.Kernel.{uint_max, FdKernel}
use layer_cake.FdPolicy.Apply.{
  apply_action, mark_between, apply_loop, apply_marks, remap, remap_after,
  apply_file_descriptor_policy, saturating_add,
}
use layer_cake.FdPolicy.Refine.{Result-split}

module _ {S E : Type 0} (P : S → Type 0) where
  -- From a state with the property the code ends, in a state with the property.
  abbrev pub Ends : {A : Type 0} → Act S E A → Type 0
  Ends m = (s : S) → P s → ((m s).0 ≢ stuck) × P (m s).1

  continue-Ends :
      {A B : Type 0} (o : Outcome A E) (s : S) (f : A → Act S E B)
      → o ≢ stuck
      → P s
      → ((a : A) → Ends (f a))
      → ((continue o s f).0 ≢ stuck) × P (continue o s f).1
  continue-Ends (done a) s f h p k = k a s p
  continue-Ends (failed e) s f h p k = ((λ q. cc), p)
  continue-Ends stuck s f h p k = absurd (h refl)

  bind-Ends :
      {A B : Type 0} (m : Act S E A) (f : A → Act S E B)
      → Ends m
      → ((a : A) → Ends (f a))
      → Ends (m >>= f)
  bind-Ends m f h k s p = continue-Ends (m s).0 (m s).1 f (h s p).0 (h s p).1 k

  pure-Ends : {A : Type 0} (a : A) → Ends (pure a)
  pure-Ends a s p = ((λ q. cc), p)

once-Ends :
    {S A : Type 0} (P : S → Type 0) (f : Call S A) → ((s : S) → P s → P (f s).1) → Ends P (once f)
once-Ends P f keep s p = (settle-ne-stuck (f s).0 (f s).1, once-keeps P f s (keep s p))

module _ (kernel : FdKernel) (fuel : ℕ) (pending : FdKernel.State kernel → ℕ)
    (dup3_steady : (old : ℕ) (new : ℤ) (s : FdKernel.State kernel)
      → pending (FdKernel.dup3 kernel old new s).1 ≤ pending s)
    (dup3_falls : (old : ℕ) (new : ℤ) (s : FdKernel.State kernel)
      → is_intr (FdKernel.dup3 kernel old new s).0 ≡ true
      → pending (FdKernel.dup3 kernel old new s).1 < pending s)
    (close_range_steady : (first last : ℕ) (s : FdKernel.State kernel)
      → pending (FdKernel.close_range kernel first last s).1 ≤ pending s)
    (dupfd_steady : (fd : ℕ) (s : FdKernel.State kernel)
      → pending (FdKernel.dupfd_cloexec kernel fd s).1 ≤ pending s)
    (close_steady : (fd : ℕ) (s : FdKernel.State kernel)
      → pending (FdKernel.close kernel fd s) ≤ pending s) where
  open kernel use {State, dup3, close_range, dupfd_cloexec, close}

  abbrev Fuelled : State → Type 0
  Fuelled s = pending s < fuel

  retried-Ends : (old : ℕ) (new : ℤ) → Ends Fuelled (retry_on_interrupt fuel (dup3 old new))
  retried-Ends old new s p = (
    retry_on_interrupt_ends (dup3 old new) pending (dup3_falls old new) fuel s p,
    retry_on_interrupt_keeps (dup3 old new) Fuelled (λ t q. omega (arith, dup3_steady old new t))
        fuel s p,
  )

  marked-Ends : (first last : ℕ) → Ends Fuelled (once (close_range first last))
  marked-Ends first last =
      once-Ends Fuelled (close_range first last)
        (λ s p. omega (arith, close_range_steady first last s))

  apply_action-Ends :
      (pipe : ℕ) (fd : RawFd) (a : Action) (d : Option ℕ)
      → Ends Fuelled (apply_action kernel fuel pipe fd a d)
  unfolding apply_action
  apply_action-Ends pipe fd ignore d = pure-Ends Fuelled d
  apply_action-Ends pipe fd (map source) d = elim (Bool-cases (fd_eq (pos pipe) fd)) [
    | inl e ↦ rw e (pure-Ends Fuelled (some source))
    | inr e ↦ rw e (
        bind-Ends Fuelled (retry_on_interrupt fuel (dup3 source fd)) (λ _. pure d)
          (retried-Ends source fd) (λ _. pure-Ends Fuelled d))
  ]

  mark_between-Ends : (start fd : ℕ) → Ends Fuelled (mark_between kernel fuel start fd)
  unfolding mark_between
  mark_between-Ends start fd = elim (Bool-cases (ltb start fd)) [
    | inl e ↦ rw e (marked-Ends start (fd - 1))
    | inr e ↦ rw e (pure-Ends Fuelled tt)
  ]

  apply_loop-Ends :
      (pipe : ℕ) (l : Policy) (start : ℕ) (d : Option ℕ)
      → Ends Fuelled (apply_loop kernel fuel pipe l start d)
  unfolding apply_loop
  apply_loop-Ends pipe [] start d = pure-Ends Fuelled (start, d)
  apply_loop-Ends pipe ((fd, a) ∷ l) start d =
      bind-Ends Fuelled (apply_action kernel fuel pipe fd a d) _ (apply_action-Ends pipe fd a d)
        (λ d'.
          bind-Ends Fuelled (mark_between kernel fuel start (to_unsigned 32 fd)) _
            (mark_between-Ends start (to_unsigned 32 fd))
            (λ _. apply_loop-Ends pipe l (saturating_add (to_unsigned 32 fd) 1) d'))

  apply_marks-Ends :
      (pipe : ℕ) (policy : Policy) → Ends Fuelled (apply_marks kernel fuel pipe policy)
  unfolding apply_marks
  apply_marks-Ends pipe policy =
      bind-Ends Fuelled (apply_loop kernel fuel pipe policy 0 none) _
        (apply_loop-Ends pipe policy 0 none)
        (λ x.
          bind-Ends Fuelled (once (close_range x.0 uint_max)) _ (marked-Ends x.0 uint_max)
            (λ _. pure-Ends Fuelled x))

  remap-ends :
      (pipe : ℕ) (d : Option ℕ) (s : State) → Fuelled s → (remap kernel fuel pipe d s).0 ≢ stuck
  unfolding remap
  remap-ends pipe none s p = λ e. cc
  remap-ends pipe (some source) s p = elim (Result-split (dupfd_cloexec pipe s).0) [
    | inr (e, q) ↦ rw (q, remap) (λ h. cc)
    | inl (free, q) ↦
        rw (q, remap)
          (retried-Ends source (pos pipe) (close pipe (dupfd_cloexec pipe s).1)
            (omega (arith, dupfd_steady pipe s, close_steady pipe (dupfd_cloexec pipe s).1))).0
  ]

  remap_after-ends :
      (pipe : ℕ) (a : Outcome (ℕ × Option ℕ) SyscallError) (s : State)
      → a ≢ stuck
      → Fuelled s
      → (remap_after kernel fuel pipe a s).0 ≢ stuck
  remap_after-ends pipe (done (start, d)) s h p = remap-ends pipe d s p
  remap_after-ends pipe (failed e) s h p = λ q. cc
  remap_after-ends pipe stuck s h p = absurd (h refl)

  -- With a measure of the kernel's state that no call raises and that an interrupted dup3 lowers,
  -- `apply_file_descriptor_policy` comes to an end on fuel above the measure, with success or an
  -- error.
  pub apply-ends :
      (policy : Policy) (pipe : ℕ) (s : State)
      → pending s < fuel
      → (apply_file_descriptor_policy kernel fuel policy pipe s).0 ≢ stuck
  unfolding apply_file_descriptor_policy
  apply-ends policy pipe s p =
      let (ends, kept) = apply_marks-Ends pipe policy s p in remap_after-ends pipe _ _ ends kept

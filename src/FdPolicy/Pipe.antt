-- ===== src/FdPolicy/Pipe.antt =====
-- The guest pipe under `apply_file_descriptor_policy`: it is open whatever the outcome, and the
-- function comes to an end.
use layer_cake.Prelude.{
  suc, ℕ, ◌-◌, ◌≡◌, ◌≢◌, refl, ap, sym, ◌∙◌, true, Option, none, some, [], ◌∷◌, All, inl, inr, ◌==◌,
  ltb, Bool-cases, arith,
}
use layer_cake.Prelude.Int.{pos, negsuc, cmp, IsSigned, to_unsigned}
use layer_cake.SortedMap.{IsSorted}
use layer_cake.Meowix.Errors.{SyscallError}
use layer_cake.Meowix.Act.{
  Outcome, done, failed, stuck, pure, once, retry_on_interrupt, retry_on_interrupt_keeps,
  bind-keeps, once-keeps,
}
use layer_cake.FdPolicy.{Action, ignore, map, Policy, fd_eq, is_valid_fd_policy}
use layer_cake.FdPolicy.Kernel.{uint_max, FdKernel, FdEntry, Table, with_flag, put, mark}
use layer_cake.FdPolicy.Apply.{
  apply_action, mark_between, apply_loop, apply_marks, remap, remap_after,
  apply_file_descriptor_policy, saturating_add,
}
use layer_cake.FdPolicy.Table.{Rising, with_flag-twice}
use layer_cake.FdPolicy.Validity.{is_valid-Rising}
use layer_cake.FdPolicy.Refine.{Result-split}

same-open : (a b : Option FdEntry) → with_flag true a ≡ with_flag true b → b ≢ none → a ≢ none
same-open none none e h q = h refl
same-open none (some b) e h q = cc
same-open (some a) b e h q = cc

module _ (kernel : FdKernel) (fuel : ℕ) where
  open kernel use {
    State, entry, dup3, close_range, dupfd_cloexec, close, dup3_done, dup3_failed, close_range_done,
    close_range_failed, dupfd_done, dupfd_failed, close_done,
  }

  -- The number `k` refers to what it refers to in `e`, up to the flag.
  abbrev Keeps : ℕ → Option FdEntry → State → Type 0
  Keeps k e s = with_flag true (entry s k) ≡ with_flag true e

  dup3-Keeps :
      (k : ℕ) (e : Option FdEntry) (old new : ℕ) (s : State)
      → k ≢ new
      → Keeps k e s
      → Keeps k e (dup3 old (pos new) s).1
  dup3-Keeps k e old new s other h = elim (Result-split (dup3 old (pos new) s).0) [
    | inl (u, q) ↦
        ap (λ t. with_flag true (t k)) (dup3_done old new s q).1
        ∙ put-other k new _ (entry s) other
        ∙ h
    | inr (x, q) ↦ ap (λ t. with_flag true (t k)) (dup3_failed old new s x q) ∙ h
  ]
    where
      put-other :
          (k new : ℕ) (v : Option FdEntry) (t : Table)
          → k ≢ new
          → with_flag true (put new v t k) ≡ with_flag true (t k)
      put-other k new v t h = ground arith

  close_range-Keeps :
      (k : ℕ) (e : Option FdEntry) (first last : ℕ) (s : State)
      → Keeps k e s
      → Keeps k e (close_range first last s).1
  close_range-Keeps k e first last s h = elim (Result-split (close_range first last s).0) [
    | inl (u, q) ↦
        ap (λ t. with_flag true (t k)) (close_range_done first last s q)
        ∙ mark-flag k first last (entry s)
        ∙ h
    | inr (x, q) ↦ ap (λ t. with_flag true (t k)) (close_range_failed first last s x q) ∙ h
  ]
    where
      mark-flag :
          (k first last : ℕ) (t : Table)
          → with_flag true (mark first last t k) ≡ with_flag true (t k)
      mark-flag k first last t = ground (arith, with_flag-twice true true (t k))

  retried-Keeps :
      (k : ℕ) (e : Option FdEntry) (old new : ℕ) (s : State)
      → k ≢ new
      → Keeps k e s
      → Keeps k e (retry_on_interrupt fuel (dup3 old (pos new)) s).1
  retried-Keeps k e old new s other h =
      retry_on_interrupt_keeps (dup3 old (pos new)) (Keeps k e)
        (λ t q. dup3-Keeps k e old new t other q) fuel s h

  module _ (pipe : ℕ) (e : Option FdEntry) where
    apply_action-Keeps :
        (n : ℕ) (a : Action) (d : Option ℕ) (s : State)
        → Keeps pipe e s
        → Keeps pipe e (apply_action kernel fuel pipe (pos n) a d s).1
    unfolding apply_action fd_eq
    apply_action-Keeps n ignore d s h = h
    apply_action-Keeps n (map source) d s h = elim (Bool-cases (pipe == n)) [
      | inl q ↦ rw q h
      | inr q ↦ rw q (
          bind-keeps (Keeps pipe e) (retry_on_interrupt fuel (dup3 source (pos n))) (λ _. pure d) s
            (retried-Keeps pipe e source n s (ground (arith, q)) h) (λ a t k. k))
    ]

    mark_between-Keeps :
        (start n : ℕ) (s : State)
        → Keeps pipe e s
        → Keeps pipe e (mark_between kernel fuel start n s).1
    unfolding mark_between
    mark_between-Keeps start n s h = elim (Bool-cases (ltb start n)) [
      | inl q ↦ rw q (
          once-keeps (Keeps pipe e) (close_range start (n - 1)) s
            (close_range-Keeps pipe e start (n - 1) s h))
      | inr q ↦ rw q h
    ]

    apply_loop-Keeps :
        (l : Policy) (bound start : ℕ) (d : Option ℕ) (s : State)
        → Rising bound l
        → Keeps pipe e s
        → Keeps pipe e (apply_loop kernel fuel pipe l start d s).1
    unfolding apply_loop
    apply_loop-Keeps [] bound start d s r h = h
    apply_loop-Keeps ((negsuc n, a) ∷ l) bound start d s r h = absurd r
    apply_loop-Keeps ((pos n, a) ∷ l) bound start d s r h =
        bind-keeps (Keeps pipe e) (apply_action kernel fuel pipe (pos n) a d) _ s
          (apply_action-Keeps n a d s h)
          (λ d' t k.
            bind-keeps (Keeps pipe e) (mark_between kernel fuel start (to_unsigned 32 (pos n))) _ t
              (mark_between-Keeps start (to_unsigned 32 (pos n)) t k)
              (λ u v q.
                apply_loop-Keeps l (suc n) (saturating_add (to_unsigned 32 (pos n)) 1) d' v r.2 q))

    apply_marks-Keeps :
        (policy : Policy) (s : State)
        → Rising 0 policy
        → Keeps pipe e s
        → Keeps pipe e (apply_marks kernel fuel pipe policy s).1
    unfolding apply_marks
    apply_marks-Keeps policy s r h =
        bind-keeps (Keeps pipe e) (apply_loop kernel fuel pipe policy 0 none) _ s
          (apply_loop-Keeps policy 0 0 none s r h)
          (λ x t k.
            bind-keeps (Keeps pipe e) (once (close_range x.0 uint_max)) _ t
              (once-keeps (Keeps pipe e) (close_range x.0 uint_max) t
                (close_range-Keeps pipe e x.0 uint_max t k))
              (λ u v q. q))

  remap-Keeps :
      (pipe : ℕ) (d : Option ℕ) (s : State)
      → (entry s pipe ≢ none)
      → with_flag true (entry (remap kernel fuel pipe d s).1 (remap kernel fuel pipe d s).2)
        ≡ with_flag true (entry s pipe)
  unfolding remap
  remap-Keeps pipe none s h = refl
  remap-Keeps pipe (some source) s h = elim (Result-split (dupfd_cloexec pipe s).0) [
    | inr (e, q) ↦ rw (q, remap) (ap (λ t. with_flag true (t pipe)) (dupfd_failed pipe s e q))
    | inl (free, q) ↦
        rw (q, remap)
          (retried-Keeps free (entry s pipe) source pipe (close pipe (dupfd_cloexec pipe s).1)
            (apart free (dupfd_done pipe free s q).0)
            (ap (λ t. with_flag true (t free))
                (close_done pipe _ ∙ ap (put pipe none) (dupfd_done pipe free s q).1)
              ∙ new_entry free pipe (entry s) (apart free (dupfd_done pipe free s q).0)))
  ]
    where
      apart : (free : ℕ) → entry s free ≡ none → free ≢ pipe
      apart free closed same = h (ap (entry s) (sym same) ∙ closed)

      new_entry :
          (free pipe : ℕ) (t : Table)
          → free ≢ pipe
          → with_flag true (put pipe none (put free (with_flag true (t pipe)) t) free)
            ≡ with_flag true (t pipe)
      new_entry free pipe t other = ground (arith, with_flag-twice true true (t pipe))

  remap_after-Keeps :
      (pipe : ℕ) (a : Outcome (ℕ × Option ℕ) SyscallError) (s : State)
      → (entry s pipe ≢ none)
      → with_flag true
          (entry (remap_after kernel fuel pipe a s).1 (remap_after kernel fuel pipe a s).2)
        ≡ with_flag true (entry s pipe)
  remap_after-Keeps pipe (done (start, d)) s h = remap-Keeps pipe d s h
  remap_after-Keeps pipe (failed e) s h = refl
  remap_after-Keeps pipe stuck s h = refl

  -- For a valid policy of `i32` numbers in order and an open guest pipe, whatever the outcome of
  -- `apply_file_descriptor_policy` is, the descriptor that is then the guest pipe's refers to the
  -- file description that the guest pipe referred to before.
  pub apply-keeps_pipe :
      (policy : Policy) (pipe : ℕ) (s : State)
      → is_valid_fd_policy policy ≡ true
      → IsSorted cmp policy
      → All (λ e. IsSigned 32 e.0) policy
      → (entry s pipe ≢ none)
      → with_flag true (
          entry
            (apply_file_descriptor_policy kernel fuel policy pipe s).1
            (apply_file_descriptor_policy kernel fuel policy pipe s).2)
        ≡ with_flag true (entry s pipe)
  unfolding apply_file_descriptor_policy
  apply-keeps_pipe policy pipe s valid o i h =
      let kept =
        apply_marks-Keeps pipe (entry s pipe) policy s (is_valid-Rising policy valid o i) refl in
      remap_after-Keeps pipe (apply_marks kernel fuel pipe policy s).0 _ (same-open _ _ kept h)
      ∙ kept

-- ===== src/FdPolicy/Loop.antt =====
-- The calls of `apply_file_descriptor_policy` up to the last `close_range`, where all are done, make
-- the planned table.
use layer_cake.Prelude.{
  ℕ, suc, ◌-◌, ◌^◌, ◌<◌, ◌≤◌, ◌≡◌, ◌≢◌, refl, ap, sym, ◌∙◌, true, false, Option, none, [], ◌∷◌, ltb,
  ◌==◌, Result, ok, err, Bool-cases, inl, inr, arith,
}
use layer_cake.Prelude.Int.{pos, negsuc, cmp, to_unsigned}
use layer_cake.SortedMap.{lookup}
use layer_cake.Meowix.Errors.{SyscallError}
use layer_cake.Meowix.Act.{
  Outcome, done, is_intr, ◌>>◌, pure, once, retry_on_interrupt, retry_on_interrupt_done, bind-done,
  once-done,
}
use layer_cake.FdPolicy.{Action, ignore, map, Policy, fd_eq}
use layer_cake.FdPolicy.Kernel.{uint_max, FdKernel, with_flag, put, mark}
use layer_cake.FdPolicy.Apply.{apply_action, mark_between, apply_loop, apply_marks, saturating_add}
use layer_cake.FdPolicy.Table.{
  if-ge, Rising, Separate, act, between, marked, planned, marked-planned,
}
use layer_cake.FdPolicy.Deferred.{deferred_by, deferred_all, deferred_all-lookup, source_of}

pub intr-err :
    {A : Type 0} (r : Result A SyscallError) → is_intr r ≡ true → (e : SyscallError) × (r ≡ err e)
intr-err (ok a) h = cc
intr-err (err e) h = (e, refl)

pub done-inj : {A E : Type 0} {a b : A} → ◌≡◌ {A = Outcome A E} (done a) (done b) → a ≡ b
done-inj e = cc

module _ (kernel : FdKernel) (fuel : ℕ) where
  open kernel use {
    State, entry, dup3, close_range, dupfd_cloexec, close, dup3_done, dup3_failed, close_range_done,
    close_range_failed, dupfd_done, dupfd_failed, close_done,
  }

  -- The retried call behaves as one call.
  pub dup3-retried :
      (old new : ℕ) (s : State)
      → (retry_on_interrupt fuel (dup3 old (pos new)) s).0 ≡ done tt
      → (entry s old ≢ none)
        × (entry (retry_on_interrupt fuel (dup3 old (pos new)) s).1
            ≡ put new (with_flag false (entry s old)) (entry s))
  dup3-retried old new s h =
      let (t, same, answer, left) =
        retry_on_interrupt_done (dup3 old (pos new)) (λ t. entry t ≡ entry s)
          (λ u e i. let (x, q) = intr-err _ i in dup3_failed old new u x q ∙ e) fuel s tt refl h in
      let (given, after) = dup3_done old new t answer in
      (
        λ q. given (ap (λ f. f old) same ∙ q),
        ap entry left ∙ after ∙ ap (λ f. put new (with_flag false (f old)) f) same,
      )

  mapping_table :
      (n source : ℕ) (d d' : Option ℕ) (s : State)
      → ((retry_on_interrupt fuel (dup3 source (pos n)) >> pure d) s).0 ≡ done d'
      → entry ((retry_on_interrupt fuel (dup3 source (pos n)) >> pure d) s).1
        ≡ put n (with_flag false (entry s source)) (entry s)
  mapping_table n source d d' s h =
      let (u, first, rest) =
        bind-done (retry_on_interrupt fuel (dup3 source (pos n))) (λ _. pure d) s d' h in
      ap (λ r. entry r.1) rest ∙ (dup3-retried source n s first).1

  mapping-deferred :
      (n source : ℕ) (d d' : Option ℕ) (s : State)
      → ((retry_on_interrupt fuel (dup3 source (pos n)) >> pure d) s).0 ≡ done d'
      → d' ≡ d
  mapping-deferred n source d d' s h =
      let (u, first, rest) =
        bind-done (retry_on_interrupt fuel (dup3 source (pos n))) (λ _. pure d) s d' h in
      done-inj (sym h ∙ ap (λ r. r.0) rest)

  once_marked :
      (first last : ℕ) (s : State)
      → (once (close_range first last) s).0 ≡ done tt
      → entry (once (close_range first last) s).1 ≡ mark first last (entry s)
  once_marked first last s h =
      let (answer, left) = once-done (close_range first last) s tt h in
      ap entry left ∙ close_range_done first last s answer

  apply_action-table :
      (pipe n : ℕ) (a : Action) (d d' : Option ℕ) (s : State)
      → (apply_action kernel fuel pipe (pos n) a d s).0 ≡ done d'
      → entry (apply_action kernel fuel pipe (pos n) a d s).1 ≡ act pipe n a (entry s)
  unfolding apply_action fd_eq
  apply_action-table pipe n ignore d d' s h = refl
  apply_action-table pipe n (map source) d d' s h = elim (Bool-cases (pipe == n)) [
    | inl e ↦ rw e refl
    | inr e ↦ rw e (mapping_table n source d d' s (rw e at h))
  ]

  mark_between-table :
      (start n : ℕ) (s : State)
      → (mark_between kernel fuel start n s).0 ≡ done tt
      → entry (mark_between kernel fuel start n s).1 ≡ between start n (entry s)
  unfolding mark_between
  mark_between-table start n s h = elim (Bool-cases (ltb start n)) [
    | inl e ↦ rw e (once_marked start (n - 1) s (rw e at h))
    | inr e ↦ rw e refl
  ]

  apply_action-deferred :
      (pipe n : ℕ) (a : Action) (d d' : Option ℕ) (s : State)
      → (apply_action kernel fuel pipe (pos n) a d s).0 ≡ done d'
      → d' ≡ deferred_by pipe n a d
  unfolding apply_action fd_eq
  apply_action-deferred pipe n ignore d d' s h = cc
  apply_action-deferred pipe n (map source) d d' s h = elim (Bool-cases (pipe == n)) [
    | inl e ↦ rw e (done-inj (sym (rw e at h)))
    | inr e ↦ rw e (mapping-deferred n source d d' s (rw e at h))
  ]

  loop_start : (n : ℕ) → n < 2 ^ 31 → saturating_add (to_unsigned 32 (pos n)) 1 ≡ suc n
  unfolding to_unsigned
  loop_start n h = ground arith

  -- One turn of the loop that is done.
  loop_turn :
      (pipe n : ℕ) (a : Action) (l : Policy) (start : ℕ) (d : Option ℕ) (s : State)
      (r : ℕ × Option ℕ)
      → n < 2 ^ 31
      → (apply_loop kernel fuel pipe ((pos n, a) ∷ l) start d s).0 ≡ done r
      → (t : State) × (entry t ≡ between start n (act pipe n a (entry s)))
        × (apply_loop kernel fuel pipe ((pos n, a) ∷ l) start d s
            ≡ apply_loop kernel fuel pipe l (suc n) (deferred_by pipe n a d) t)
  unfolding apply_loop to_unsigned
  loop_turn pipe n a l start d s r small h =
      let (d₁, first, rest) = bind-done (apply_action kernel fuel pipe (pos n) a d) _ s r h in
      let (u, second, rest') =
        bind-done (mark_between kernel fuel start n)
          (λ _. apply_loop kernel fuel pipe l (saturating_add (to_unsigned 32 (pos n)) 1) d₁)
          (apply_action kernel fuel pipe (pos n) a d s).1 r (ap (λ x. x.0) (sym rest) ∙ h) in
      (
        (mark_between kernel fuel start n (apply_action kernel fuel pipe (pos n) a d s).1).1,
        mark_between-table start n _ second
            ∙ ap (between start n) (apply_action-table pipe n a d d₁ s first),
        rest
            ∙ rest'
            ∙ ap
                (λ m. apply_loop kernel fuel pipe l m d₁ (
                  (mark_between kernel fuel start n
                    (apply_action kernel fuel pipe (pos n) a d s).1).1))
                (loop_start n small)
            ∙ ap
                (λ e. apply_loop kernel fuel pipe l (suc n) e (
                  (mark_between kernel fuel start n
                    (apply_action kernel fuel pipe (pos n) a d s).1).1))
                (apply_action-deferred pipe n a d d₁ s first),
      )

  apply_loop-marked :
      (pipe : ℕ) (l : Policy) (start : ℕ) (d : Option ℕ) (s : State) (start' : ℕ) (d' : Option ℕ)
      → Rising start l
      → (apply_loop kernel fuel pipe l start d s).0 ≡ done (start', d')
      → (mark start' uint_max (entry (apply_loop kernel fuel pipe l start d s).1)
          ≡ marked pipe l start (entry s))
        × (d' ≡ deferred_all pipe l d)
  unfolding apply_loop marked
  apply_loop-marked pipe [] start d s start' d' r h = (
    ap (λ x. mark x uint_max (entry s)) (sym (ap (λ x. x.0) (done-inj h))),
    sym (ap (λ x. x.1) (done-inj h)),
  )
  apply_loop-marked pipe ((negsuc n, a) ∷ l) start d s start' d' r h = absurd r
  apply_loop-marked pipe ((pos n, a) ∷ l) start d s start' d' r h =
      let (t, table, rest) = loop_turn pipe n a l start d s (start', d') r.1 h in
      let (ih, ih') =
        apply_loop-marked pipe l (suc n) (deferred_by pipe n a d) t start' d' r.2
          (ap (λ x. x.0) (sym rest) ∙ h) in
      (ap (λ x. mark start' uint_max (entry x.1)) rest ∙ ih ∙ ap (marked pipe l (suc n)) table, ih')

  -- The calls before the pipe is remapped.
  pub apply_marks-planned :
      (pipe : ℕ) (policy : Policy) (s : State) (start' : ℕ) (d' : Option ℕ)
      → Rising 0 policy
      → Separate policy
      → (apply_marks kernel fuel pipe policy s).0 ≡ done (start', d')
      → ((k : ℕ)
          → k ≤ uint_max
          → entry (apply_marks kernel fuel pipe policy s).1 k
            ≡ planned pipe (entry s) k (lookup cmp (pos k) policy))
        × (d' ≡ source_of (lookup cmp (pos pipe) policy) none)
  unfolding apply_marks
  apply_marks-planned pipe policy s start' d' r sep h =
      let (x, first, rest) =
        bind-done (apply_loop kernel fuel pipe policy 0 none) _ s (start', d') h in
      let (u, second, rest') =
        bind-done (once (close_range x.0 uint_max)) (λ _. pure x)
          (apply_loop kernel fuel pipe policy 0 none s).1 (start', d')
          (ap (λ q. q.0) (sym rest) ∙ h) in
      let (table, which) = apply_loop-marked pipe policy 0 none s x.0 x.1 r first in
      (
        λ k le.
            ap (λ q. entry q.1 k) rest
            ∙ ap (λ q. entry q.1 k) rest'
            ∙ ap (λ f. f k) (once_marked x.0 uint_max _ second ∙ table)
            ∙ marked-planned pipe policy 0 (entry s) k r sep le
            ∙ if-ge k 0 _ _ (omega arith),
        ap (λ q. q.1) (done-inj (sym h ∙ ap (λ q. q.0) rest ∙ ap (λ q. q.0) rest'))
            ∙ which
            ∙ deferred_all-lookup pipe 0 policy none r,
      )

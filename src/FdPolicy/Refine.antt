-- ===== src/FdPolicy/Refine.antt =====
-- `apply_file_descriptor_policy` carries out a valid policy, and keeps the pipe.
use layer_cake.Prelude.{
  ◌^◌, ◌<◌, ◌⊎◌, ℕ, ◌≤◌, ◌≡◌, ◌≢◌, refl, ap, sym, ◌∙◌, Bool, true, false, Option, none, some, All,
  ◌==◌, if◌then◌else◌, Result, ok, err, Bool-cases, inl, inr, arith,
}
use layer_cake.Prelude.Int.{pos, cmp, IsSigned}
use layer_cake.SortedMap.{lookup, IsSorted}
use layer_cake.Meowix.Errors.{SyscallError}
use layer_cake.Meowix.Act.{Outcome, done, failed, stuck, retry_on_interrupt}
use layer_cake.FdPolicy.{Action, ignore, map, Policy, is_valid_fd_policy}
use layer_cake.FdPolicy.Kernel.{uint_max, FdKernel, FdEntry, Table, with_flag, put}
use layer_cake.FdPolicy.Apply.{remap_after, apply_marks, remap, apply_file_descriptor_policy}
use layer_cake.FdPolicy.Deferred.{source_of}
use layer_cake.FdPolicy.Table.{with_flag-twice, planned}
use layer_cake.FdPolicy.Validity.{
  All-mapped_sources, is_valid-source, mapped_sources, is_valid-Rising, is_valid-Separate,
}
use layer_cake.FdPolicy.Loop.{apply_marks-planned, dup3-retried}

-- What a policy promises for one number.
abbrev pub promised : Table → ℕ → Option Action → Option FdEntry
promised t k none = with_flag true (t k)
promised t k (some ignore) = t k
promised t k (some (map source)) = with_flag false (t source)

pub Result-split :
    {A E : Type 0} (r : Result A E) → ((a : A) × (r ≡ ok a)) ⊎ ((e : E) × (r ≡ err e))
Result-split (ok a) = inl (a, refl)
Result-split (err e) = inr (e, refl)

failed-ne-done : {A E : Type 0} {e : E} {a : A} → failed e ≢ done a
failed-ne-done q = cc

-- The table after the pipe has moved from `pipe` to `free`.
abbrev pub moved : ℕ → ℕ → ℕ → Table → Table
moved pipe free source t =
    let u = put pipe none (put free (with_flag true (t pipe)) t) in
    put pipe (with_flag false (u source)) u

pub with_flag-open : (b : Bool) (e : Option FdEntry) → e ≢ none → with_flag b e ≢ none
with_flag-open b none h q = h refl
with_flag-open b (some e) h q = cc

elsewhere :
    (t : Table) (pipe k : ℕ) (o : Option Action) → k ≢ pipe → planned pipe t k o ≡ promised t k o
elsewhere t pipe k none h = refl
elsewhere t pipe k (some ignore) h = refl
elsewhere t pipe k (some (map source)) h = ground arith

unmapped :
    (t : Table) (pipe k : ℕ) (o : Option Action)
    → ((x : ℕ) → o ≢ some (map x))
    → (with_flag false (planned pipe t k o) ≡ with_flag false (t k))
      × (t k ≢ none → planned pipe t k o ≢ none)
unmapped t pipe k none h = (with_flag-twice false true (t k), with_flag-open true (t k))
unmapped t pipe k (some ignore) h = (refl, λ q. q)
unmapped t pipe k (some (map source)) h = absurd (h source refl)

source_of-some : (o : Option Action) (src : ℕ) → some src ≡ source_of o none → o ≡ some (map src)
source_of-some none src e = cc
source_of-some (some ignore) src e = cc
source_of-some (some (map source)) src e = cc

-- The table after the move, at a number that is not the new one.
moved-at :
    (pipe free source : ℕ) (t : Table) (k : ℕ)
    → k ≢ free
    → source ≢ free
    → source ≢ pipe
    → moved pipe free source t k ≡ (if k == pipe then with_flag false (t source) else t k)
moved-at pipe free source t k h h' h'' = ground arith

module _ (kernel : FdKernel) (fuel : ℕ) where
  open kernel use {State, entry, dup3, dupfd_cloexec, close, dupfd_done, dupfd_failed, close_done}

  remap-table :
      (pipe free source : ℕ) (s : State)
      → (dupfd_cloexec pipe s).0 ≡ ok free
      → (retry_on_interrupt fuel (dup3 source (pos pipe)) (close pipe (dupfd_cloexec pipe s).1)).0
        ≡ done tt
      → entry
          (retry_on_interrupt fuel (dup3 source (pos pipe)) (close pipe (dupfd_cloexec pipe s).1)).1
        ≡ moved pipe free source (entry s)
  remap-table pipe free source s q h =
      (dup3-retried kernel fuel source pipe _ h).1
      ∙ ap (λ t. put pipe (with_flag false (t source)) t)
          (close_done pipe _ ∙ ap (put pipe none) (dupfd_done pipe free s q).1)

  remap-done :
      (pipe source : ℕ) (s : State)
      → (remap kernel fuel pipe (some source) s).0 ≡ done tt
      → (entry s (remap kernel fuel pipe (some source) s).2 ≡ none)
        × (entry (remap kernel fuel pipe (some source) s).1
            ≡ moved pipe (remap kernel fuel pipe (some source) s).2 source (entry s))
  unfolding remap
  remap-done pipe source s h = elim (Result-split (dupfd_cloexec pipe s).0) [
    | inr (e, q) ↦ absurd (failed-ne-done (rw (q, remap) at h))
    | inl (free, q) ↦ (
      rw (q, remap) (dupfd_done pipe free s q).0,
      rw (q, remap) (remap-table pipe free source s q (rw (q, remap) at h)),
    )
  ]

  remap_after-done :
      (pipe : ℕ) (a : Outcome (ℕ × Option ℕ) SyscallError) (s : State)
      → (remap_after kernel fuel pipe a s).0 ≡ done tt
      → (x : ℕ × Option ℕ) × (a ≡ done x)
        × (remap_after kernel fuel pipe a s ≡ remap kernel fuel pipe x.1 s)
  remap_after-done pipe (done x) s h = (x, refl, refl)
  remap_after-done pipe (failed e) s h = cc
  remap_after-done pipe stuck s h = cc

  module _ (policy : Policy) (pipe : ℕ) (s u : State) (valid : is_valid_fd_policy policy ≡ true)
      (open_sources : All (λ src. (src < 2 ^ 31) × (entry s src ≢ none)) (mapped_sources policy))
      (plan : (k : ℕ)
        → k ≤ uint_max
        → entry u k ≡ planned pipe (entry s) k (lookup cmp (pos k) policy)) where
    planned-promised :
        (k : ℕ)
        → k ≤ uint_max
        → k ≢ pipe
        → entry u k ≡ promised (entry s) k (lookup cmp (pos k) policy)
    planned-promised k le other = plan k le ∙ elsewhere (entry s) pipe k _ other

    -- The source of the pipe's mapping, in the planned table.
    source_planned :
        (src : ℕ)
        → lookup cmp (pos pipe) policy ≡ some (map src)
        → (src ≢ pipe)
          × (entry u src ≢ none)
          × (with_flag false (entry u src) ≡ with_flag false (entry s src))
    source_planned src e =
        let given =
          All-mapped_sources (λ x. (x < 2 ^ 31) × (entry s x ≢ none)) policy pipe src open_sources
            e in
        let le : src ≤ uint_max = omega (arith, given.0) in
        let kept =
          unmapped (entry s) pipe src (lookup cmp (pos src) policy)
            (λ x. is_valid-source policy valid pipe src x e) in
        (
          λ same.
              is_valid-source policy valid pipe src src e
                (ap (λ x. lookup cmp (pos x) policy) same ∙ e),
          λ closed. kept.1 given.1 (sym (plan src le) ∙ closed),
          ap (with_flag false) (plan src le) ∙ kept.0,
        )

    remap-promised :
        (d : Option ℕ)
        → d ≡ source_of (lookup cmp (pos pipe) policy) none
        → (remap kernel fuel pipe d u).0 ≡ done tt
        → (k : ℕ) → k ≤ uint_max
        → k ≢ (remap kernel fuel pipe d u).2
        → entry (remap kernel fuel pipe d u).1 k ≡ promised (entry s) k (lookup cmp (pos k) policy)
    unfolding remap
    remap-promised none which h k le other = planned-promised k le other
    remap-promised (some src) which h k le other =
        let (free, table) = remap-done pipe src u h in
        let mapping = source_of-some _ src which in
        let (apart, given, same) = source_planned src mapping in
        ap (λ f. f k) table
        ∙ moved-at pipe _ src (entry u) k other (λ e. given (ap (entry u) e ∙ free)) apart
        ∙ elim (Bool-cases (k == pipe)) [
          | inl e ↦ rw e (
              same
              ∙ sym (
                  ap (promised (entry s) k)
                    (ap (λ x. lookup cmp (pos x) policy) (is_pipe e) ∙ mapping)))
          | inr e ↦ rw e (planned-promised k le (is_other e))
        ]
      where
        is_pipe : (k == pipe) ≡ true → k ≡ pipe
        is_pipe e = ground arith

        is_other : (k == pipe) ≡ false → k ≢ pipe
        is_other e = ground arith

  -- Where `apply_file_descriptor_policy` succeeds on a valid policy of `i32` numbers in order
  -- whose sources are open, each number of a `c_uint` but that of the guest pipe ends up as the
  -- policy has it: a number that is not listed keeps its file and is close-on-exec, an ignored
  -- number is as before, and a mapped number refers to what its source referred to before and
  -- stays open on exec.
  pub apply-planned :
      (policy : Policy) (pipe : ℕ) (s : State)
      → is_valid_fd_policy policy ≡ true
      → IsSorted cmp policy
      → All (λ e. IsSigned 32 e.0) policy
      → All (λ src. (src < 2 ^ 31) × (entry s src ≢ none)) (mapped_sources policy)
      → (apply_file_descriptor_policy kernel fuel policy pipe s).0 ≡ done tt
      → ((k : ℕ)
          → k ≤ uint_max
          → k ≢ (apply_file_descriptor_policy kernel fuel policy pipe s).2
          → entry (apply_file_descriptor_policy kernel fuel policy pipe s).1 k
            ≡ promised (entry s) k (lookup cmp (pos k) policy))
  unfolding apply_file_descriptor_policy
  apply-planned policy pipe s valid o i open_sources h k le other =
      let ((start, d), marks, rest) = remap_after-done pipe _ _ h in
      let (plan, which) =
        apply_marks-planned kernel fuel pipe policy s start d (is_valid-Rising policy valid o i)
          (is_valid-Separate policy valid) marks in
      ap (λ r. entry r.1 k) rest
      ∙ remap-promised policy pipe s (apply_marks kernel fuel pipe policy s).1 valid open_sources
          plan d which (ap (λ r. r.0) (sym rest) ∙ h) k le
          (λ e. other (e ∙ ap (λ r. r.2) (sym rest)))

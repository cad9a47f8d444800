-- ===== src/Spawn/Mounts/Opened.antt =====
-- How `resolve_bind_mappings` of crates/bubblebox/src/platform/linux/spawn/mounts.rs detaches a mount
-- in a namespace, and how it tells whether a file is the one that is expected.
use layer_cake.Prelude.{
  Bool, true, ℕ, ◌≡◌, Bool-cases, inl, inr, [], ◌∷◌, Option, none, some, arith, ok,
}
use layer_cake.Meowix.Answers.{call-Answered}
use layer_cake.Spawn.Wire.{syscall}
use layer_cake.Spawn.Mounts.Made.{SameFile, detaching, IsOpened, Entered}
use layer_cake.Meowix.Netlink.Leaves.{
  Leaves, Leaves-Post, Gives-Leaves, bind-Leaves, call-Leaves, weaken-Leaves,
}
use layer_cake.Mounts.{OwnedFd, MountAttributes}
use layer_cake.Spawn.Mounts.{clone_newns, Guest, MountKernel}
use layer_cake.Prelude.Text.{codes}
use layer_cake.Meowix.Gives.{◌>>=◌, if-Gives, Gives, Any, bind-Gives, pure-Gives, fail-Gives}
use layer_cake.Meowix.Errors.{SyscallError}
use layer_cake.Spawn.Mounts.Capture.{FileInfo}
use layer_cake.Spawn.Mounts.Bind.{same_file_identity, enter_namespace, open_detached, clone_flags}
use layer_cake.Spawn.Mounts.Steps.{step_rules, or_close-Gives}

module _ (kernel : MountKernel) where
  open kernel use {State, setns, chdir}

  pub same_file_identity-Gives :
      {E : Type 0} (f : SyscallError → E) (a b : ℕ) → Gives Any (same_file_identity kernel f a b)
  unfolding same_file_identity
  same_file_identity-Gives f a b = search step_rules

  -- Two files are taken for the same only where statx has told the same of both.
  same_file_identity-SameFile :
      {E : Type 0} (f : SyscallError → E) (a b : ℕ)
      → Gives (λ same. same ≡ true → SameFile kernel a b) (same_file_identity kernel f a b)
  unfolding same_file_identity
  same_file_identity-SameFile f a b = bind-Gives _ _ _ _ (call-Answered _ _) (λ l left.
      bind-Gives _ _ _ _ (call-Answered _ _) (λ r right.
        if-Gives _ _ _ _ (pure-Gives _ _ (λ e. cc)) (
          pure-Gives _ _
            (λ e. (l, r, left, right, ground (arith, e), ground (arith, e), ground (arith, e))))))

  -- The answer of open_tree_attr, for the file that is expected.
  pub open_detached-Leaves :
      (info : Option FileInfo) (is_recursive : Bool) (a : MountAttributes) (namespace_fd : OwnedFd)
      (u : State)
      → Entered kernel namespace_fd u
      → Leaves
          (λ n _. IsOpened kernel info a is_recursive namespace_fd n)
          (open_detached kernel info (clone_flags kernel is_recursive) a u)
  unfolding open_detached
  open_detached-Leaves none is_recursive a namespace_fd u entered =
      weaken-Leaves (λ n v. detaching kernel none a is_recursive u ≡ (ok n, v))
        (λ n _. IsOpened kernel none a is_recursive namespace_fd n) _ (call-Leaves _ _ u)
        (λ n v e. ((u, v, entered, e), tt))
  open_detached-Leaves (some info) is_recursive a namespace_fd u entered =
      bind-Leaves (λ n v. detaching kernel (some info) a is_recursive u ≡ (ok n, v))
        (λ n _. IsOpened kernel (some info) a is_recursive namespace_fd n) _ _ u (call-Leaves _ _ u)
        (λ m v e.
          Gives-Leaves (IsOpened kernel (some info) a is_recursive namespace_fd) _
            (or_close-Gives kernel (IsOpened kernel (some info) a is_recursive namespace_fd) m _ (
              bind-Gives _ _ _ _ (same_file_identity-SameFile syscall info.original_fd m) (λ b same.
                elim (Bool-cases b) [
                  | inl q ↦ rw q (pure-Gives _ _ ((u, v, entered, e), same q))
                  | inr q ↦ rw q (fail-Gives _ _)
                ])))
            v)

  enter_namespace-Leaves :
      (n : ℕ) (s : State) → Leaves (λ _ u. Entered kernel n u) (enter_namespace kernel n s)
  enter_namespace-Leaves n s =
      bind-Leaves (λ x t. setns n (clone_newns ∷ []) s ≡ (ok x, t)) (λ _ u. Entered kernel n u) _ _
        s (call-Leaves _ _ s)
        (λ _ t first.
          weaken-Leaves (λ x u. chdir (codes "/") t ≡ (ok x, u)) (λ _ u. Entered kernel n u) _
            (call-Leaves _ _ t) (λ _ u second. (s, t, first, second)))

  -- A namespace is entered, a mount detached in it, and something done with it.
  pub in_namespace-Gives :
      {B : Type 0} (Q : B → Type 0) (namespace_fd : OwnedFd) (P : OwnedFd → Type 0)
      (m : Guest kernel OwnedFd) (f : OwnedFd → Guest kernel B)
      → ((u : State) → Entered kernel namespace_fd u → Leaves (λ n _. P n) (m u))
      → ((n : OwnedFd) → P n → Gives Q (f n))
      → Gives Q (enter_namespace kernel namespace_fd >>= λ _. m >>= f)
  in_namespace-Gives Q namespace_fd P m f h k = record {
    at = λ s. Leaves-Post Q _ (
        bind-Leaves (λ _ u. Entered kernel namespace_fd u) (λ b _. Q b)
          (enter_namespace kernel namespace_fd) _ s (enter_namespace-Leaves namespace_fd s)
          (λ _ u entered.
            bind-Leaves (λ n _. P n) (λ b _. Q b) m f u (h u entered)
              (λ n v made. Gives-Leaves Q (f n) (k n made) v)));
  }

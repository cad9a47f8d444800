-- ===== src/Policy.antt =====
-- The policy and its builder: crates/bubblebox/src/platform/linux/policy/mod.rs and keyring.rs.
pub mod Built
use layer_cake.Prelude.{Bool, true, false, Option, none, some, Result, ok, err, if◌then◌else◌}
use layer_cake.Mounts.Tree.{MountTree, is_valid}
use layer_cake.Mounts.Tree
use layer_cake.FdPolicy.{is_valid_fd_policy}
use layer_cake.FdPolicy
use layer_cake.Rlimits.{Rlimits}
use layer_cake.Rlimits.Builder
use layer_cake.Scheduler.{Scheduler}
use layer_cake.Scheduler.Builder as SchedulerBuilder

-- crates/bubblebox/src/platform/linux/policy/errors.rs: the errors of the builder
pub data PolicyError : Type 0 where
  invalid_fd_policy invalid_mount_policy : PolicyError

-- `KeyringInner`
pub data Keyring : Type 0 where
  inherit_authority inherit reset : Keyring

-- `Policy`; the types of the parts without a model of their own are parameters.
pub record Policy (Namespaces Cgroups CapabilitySet Filter : Type 0) : Type 0 where
  pub mount_tree : MountTree
  pub namespaces : Namespaces
  pub cgroups : Cgroups
  pub target_capabilities : CapabilitySet
  pub file_descriptors : FdPolicy.Policy
  pub new_session : Bool
  pub keyring : Keyring
  pub rlimits : Rlimits
  pub scheduler : Scheduler
  pub seccomp_filter : Option Filter

module _ {N C K F : Type 0} where
  -- `Default`, with the defaults of the parts that are parameters.
  unfoldable pub default : N → C → K → Policy N C K F
  unfolding Tree.empty FdPolicy.empty Builder.default SchedulerBuilder.default
  default n c k = record {
    mount_tree = Tree.empty;
    namespaces = n;
    cgroups = c;
    target_capabilities = k;
    file_descriptors = FdPolicy.empty;
    new_session = true;
    keyring = reset;
    rlimits = Builder.default;
    scheduler = SchedulerBuilder.default;
    seccomp_filter = none;
  }

  unfoldable pub mount_tree :
      (MountTree → MountTree) → Policy N C K F → Result (Policy N C K F) PolicyError
  mount_tree configure p =
      let t = is_valid (configure p.mount_tree) in
      if t.1 then ok (record p { mount_tree = t.0 }) else err invalid_mount_policy

  unfoldable pub fd_policy :
      (FdPolicy.Policy → FdPolicy.Policy) → Policy N C K F → Result (Policy N C K F) PolicyError
  fd_policy configure p =
      let fds = configure p.file_descriptors in
      if is_valid_fd_policy fds
      then ok (record p { file_descriptors = fds })
      else err invalid_fd_policy

  unfoldable pub set_cgroups : C → Policy N C K F → Policy N C K F
  set_cgroups c p = record p { cgroups = c }

  unfoldable pub namespace : (N → N) → Policy N C K F → Policy N C K F
  namespace configure p = record p { namespaces = configure p.namespaces }

  unfoldable pub set_target_capabilities : K → Policy N C K F → Policy N C K F
  set_target_capabilities k p = record p { target_capabilities = k }

  unfoldable pub new_session : Bool → Policy N C K F → Policy N C K F
  new_session b p = record p { new_session = b }

  unfoldable pub keyring : (Keyring → Keyring) → Policy N C K F → Policy N C K F
  keyring configure p = record p { keyring = configure p.keyring }

  unfoldable pub rlimits : (Rlimits → Rlimits) → Policy N C K F → Policy N C K F
  rlimits configure p = record p { rlimits = configure p.rlimits }

  unfoldable pub scheduler : (Scheduler → Scheduler) → Policy N C K F → Policy N C K F
  scheduler configure p = record p { scheduler = configure p.scheduler }

  unfoldable pub seccomp_filter : F → Policy N C K F → Policy N C K F
  seccomp_filter f p = record p { seccomp_filter = some f }

  unfoldable pub clear_seccomp_filter : Policy N C K F → Policy N C K F
  clear_seccomp_filter p = record p { seccomp_filter = none }

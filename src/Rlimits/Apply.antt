-- ===== src/Rlimits/Apply.antt =====
-- `apply_resource_limit_policy` of crates/bubblebox/src/platform/linux/spawn/rlimit.rs.
use layer_cake.Prelude.{ℕ, ◌≡◌, ◌≢◌, Option, none, some, ok, err}
use layer_cake.Meowix.Errors.{SyscallError}
use layer_cake.Meowix.Act.{Act, Call, ◌>>◌, pure, once}
use layer_cake.Rlimits.{Rlimit, Rlimits}
use layer_cake.Rlimits.Limit.{into_raw}

-- The `RLIMIT_*` constants that the function uses.
pub data Resource : Type 0 where
  rlimit_as : Resource
  rlimit_core : Resource
  rlimit_cpu : Resource
  rlimit_data : Resource
  rlimit_fsize : Resource
  rlimit_locks : Resource
  rlimit_memlock : Resource
  rlimit_msgqueue : Resource
  rlimit_nice : Resource
  rlimit_nofile : Resource
  rlimit_nproc : Resource
  rlimit_rtprio : Resource
  rlimit_rttime : Resource
  rlimit_sigpending : Resource
  rlimit_stack : Resource

-- prlimit64(2) on the current process: a call that is done sets the soft and the hard limit of one
-- resource, and one that fails sets nothing.
pub record LimitKernel : Type 1 where
  pub State : Type 0
  pub limits : State → Resource → ℕ × ℕ
  pub prlimit64 : Resource → ℕ × ℕ → Call State (Unit {0})
  pub prlimit64_done :
      (r : Resource) (v : ℕ × ℕ) (s : State)
      → (prlimit64 r v s).0 ≡ ok tt
      → limits (prlimit64 r v s).1 r ≡ v
  pub prlimit64_other :
      (r q : Resource) (v : ℕ × ℕ) (s : State) → q ≢ r → limits (prlimit64 r v s).1 q ≡ limits s q
  pub prlimit64_failed :
      (r : Resource) (v : ℕ × ℕ) (s : State) (e : SyscallError)
      → (prlimit64 r v s).0 ≡ err e
      → limits (prlimit64 r v s).1 ≡ limits s

module _ (kernel : LimitKernel) where
  open kernel use {State, prlimit64}

  -- The macro `implement_limit!`
  abbrev pub implement_limit : Resource → Option Rlimit → Act State SyscallError (Unit {0})
  implement_limit resource none = pure tt
  implement_limit resource (some limit) = once (prlimit64 resource (into_raw limit))

  -- A failure is wrapped as `PostSpawnGuest::Syscall`.
  unfoldable pub apply_resource_limit_policy : Rlimits → Act State SyscallError (Unit {0})
  apply_resource_limit_policy policy = do
    implement_limit rlimit_as policy.address_space
    implement_limit rlimit_core policy.core
    implement_limit rlimit_cpu policy.cpu
    implement_limit rlimit_data policy.data_size
    implement_limit rlimit_fsize policy.fsize
    implement_limit rlimit_locks policy.locks
    implement_limit rlimit_memlock policy.memlock
    implement_limit rlimit_msgqueue policy.msgqueue
    implement_limit rlimit_nice policy.nice
    implement_limit rlimit_nofile policy.nofile
    implement_limit rlimit_nproc policy.nproc
    implement_limit rlimit_rtprio policy.rtprio
    implement_limit rlimit_rttime policy.rttime
    implement_limit rlimit_sigpending policy.sigpending
    implement_limit rlimit_stack policy.stack
    pure tt

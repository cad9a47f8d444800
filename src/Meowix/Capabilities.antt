-- ===== src/Meowix/Capabilities.antt =====
-- crates/meowix/src/capabilities.rs: a set of capabilities is a word of 64 bits.
pub mod Bounding
use layer_cake.Prelude.{
  ℕ, zero, suc, ◌+◌, ◌^◌, ◌/◌, ◌%◌, Bool, Bytes, List, [], ◌∷◌, Option, none, some, bytes_eq,
  Result, ok, err, ◌==◌, if◌then◌else◌, map,
}
use layer_cake.Prelude.Bits.{bit}
use layer_cake.Prelude.Text.{codes}
use layer_cake.Meowix.Errors.{Errno, errno, SyscallError}
use layer_cake.Meowix.Act.{Act, Call}
use layer_cake.Meowix.Gives.{◌>>=◌, ◌>>◌, pure, fail, call, attempt}

abbrev pub CapabilitySet : Type 0
CapabilitySet = ℕ

-- `contains` of the set of one capability
abbrev pub contains : CapabilitySet → ℕ → Bool
contains set cap = bit cap set

-- The names of the constants, in the order of their values.
abbrev pub names : List Bytes
names =
    codes "CHOWN"
    ∷ codes "DAC_OVERRIDE"
    ∷ codes "DAC_READ_SEARCH"
    ∷ codes "FOWNER"
    ∷ codes "FSETID"
    ∷ codes "KILL"
    ∷ codes "SETGID"
    ∷ codes "SETUID"
    ∷ codes "SETPCAP"
    ∷ codes "LINUX_IMMUTABLE"
    ∷ codes "NET_BIND_SERVICE"
    ∷ codes "NET_BROADCAST"
    ∷ codes "NET_ADMIN"
    ∷ codes "NET_RAW"
    ∷ codes "IPC_LOCK"
    ∷ codes "IPC_OWNER"
    ∷ codes "SYS_MODULE"
    ∷ codes "SYS_RAWIO"
    ∷ codes "SYS_CHROOT"
    ∷ codes "SYS_PTRACE"
    ∷ codes "SYS_PACCT"
    ∷ codes "SYS_ADMIN"
    ∷ codes "SYS_BOOT"
    ∷ codes "SYS_NICE"
    ∷ codes "SYS_RESOURCE"
    ∷ codes "SYS_TIME"
    ∷ codes "SYS_TTY_CONFIG"
    ∷ codes "MKNOD"
    ∷ codes "LEASE"
    ∷ codes "AUDIT_WRITE"
    ∷ codes "AUDIT_CONTROL"
    ∷ codes "SETFCAP"
    ∷ codes "MAC_OVERRIDE"
    ∷ codes "MAC_ADMIN"
    ∷ codes "SYSLOG"
    ∷ codes "WAKE_ALARM"
    ∷ codes "BLOCK_SUSPEND"
    ∷ codes "AUDIT_READ"
    ∷ codes "PERFMON"
    ∷ codes "BPF"
    ∷ codes "CHECKPOINT_RESTORE"
    ∷ []

unfoldable pub from_names : ℕ → List Bytes → Bytes → Option CapabilitySet
from_names i [] value = none
from_names i (name ∷ rest) value =
    if bytes_eq value name then some (2 ^ i) else from_names (i + 1) rest value

-- `CapabilitySet::from_str`
unfoldable pub from_str : Bytes → Option CapabilitySet
unfolding from_names
from_str = from_names 0 names

pub record CapabilitySets : Type 0 where
  pub effective : CapabilitySet
  pub permitted : CapabilitySet
  pub inheritable : CapabilitySet

-- `into_user_cap_data_struct`: the words of the low and of the high capabilities
abbrev pub low_word : CapabilitySet → ℕ
low_word set = set % 2 ^ 32

abbrev pub high_word : CapabilitySet → ℕ
high_word set = set / 2 ^ 32 % 2 ^ 32

unfoldable pub into_user_cap_data_struct : CapabilitySets → CapabilitySets × CapabilitySets
into_user_cap_data_struct sets = (words low_word, words high_word)
  where
    words : (CapabilitySet → ℕ) → CapabilitySets
    words word = record {
      effective = word sets.effective;
      permitted = word sets.permitted;
      inheritable = word sets.inheritable;
    }

-- `Errno::INVAL`
abbrev pub inval : Errno
inval = errno 22

-- `MAX_LAST_CAP`
abbrev pub max_last_cap : ℕ
max_last_cap = 64

-- The `if let` on the answer of prctl, before the rounds that are left.
abbrev pub after_drop :
    {S : Type 0}
    → Act S SyscallError (Unit {0})
    → Result (Unit {0}) SyscallError
    → Act S SyscallError (Unit {0})
after_drop rest (ok _) = rest
after_drop rest (err e) = if e.error.encoded == inval.encoded then pure tt else fail e

module _ {S : Type 0} (drop_capability_from_bounding_set : ℕ → Call S (Unit {0})) where
  -- The `for` of `drop_bounding_set`, with the rounds that are left.
  unfoldable pub drop_loop : CapabilitySet → ℕ → ℕ → Act S SyscallError (Unit {0})
  drop_loop other_than zero cap = pure tt
  drop_loop other_than (suc n) cap =
      let rest = drop_loop other_than n (cap + 1) in
      if contains other_than cap
      then rest
      else (attempt (drop_capability_from_bounding_set cap) >>= after_drop rest)

  -- `drop_bounding_set`
  unfoldable pub drop_bounding_set : CapabilitySet → Act S SyscallError (Unit {0})
  unfolding drop_loop
  drop_bounding_set other_than = drop_loop other_than max_last_cap 0

module _ {S : Type 0} (raise_capability_into_ambient_set : ℕ → Call S (Unit {0})) where
  -- The `for` of `set_ambient_capabilities`.
  unfoldable pub raise_loop : CapabilitySet → ℕ → ℕ → Act S SyscallError (Unit {0})
  raise_loop raise zero cap = pure tt
  raise_loop raise (suc n) cap =
      let rest = raise_loop raise n (cap + 1) in
      if contains raise cap
      then call (λ e. e) (raise_capability_into_ambient_set cap) >> rest
      else rest

  -- `set_ambient_capabilities`
  unfoldable pub set_ambient_capabilities : CapabilitySet → Act S SyscallError (Unit {0})
  unfolding raise_loop
  set_ambient_capabilities raise = raise_loop raise max_last_cap 0

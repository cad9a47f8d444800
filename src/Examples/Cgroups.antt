-- ===== src/Examples/Cgroups.antt =====
-- Cgroup policies at concrete inputs, and the dropping of capabilities.
use layer_cake.Prelude.{
  ℕ, zero, suc, ◌+◌, ◌*◌, ◌≤◌, ◌<◌, ◌≡◌, ◌≢◌, refl, Bool, true, false, ◌==◌, none, some, [], ◌∷◌,
  ◌++◌, Bytes, List, ok, err, length, ltb, if◌then◌else◌, arith,
}
use layer_cake.Prelude.Int.{ℤ, negsuc}
use layer_cake.Prelude.Text.{codes}
use layer_cake.Meowix.Errors.{SyscallError, unknown}
use layer_cake.Meowix.Act.{Call, is_intr}
use layer_cake.Meowix.Gives.{Gives}
use layer_cake.Meowix.Capabilities.{inval, drop_bounding_set}
use layer_cake.Meowix.Capabilities.Bounding.{Dropped, drop_bounding_set-Dropped}
use layer_cake.Policy.{reset}
use layer_cake.Spawn.Keyring.{
  KeyringKernel, apply_keyring_policy, Restricted, apply_keyring_policy-Restricted,
}
use layer_cake.Cgroups.Values.{UclampValue, value, nice, clamp_new, two_digits, clamp_text}
use layer_cake.Cgroups.Values as Values
use layer_cake.Cgroups.Clamps.{clamp_text-parts}
use layer_cake.Cgroups.Cpu
use layer_cake.Cgroups.Policy.{CgroupKernel, Policy, apply_to_cgroup}
use layer_cake.Cgroups.Reading.{ReadsSettle}
use layer_cake.Cgroups.Applied.{Applied, apply_to_cgroup-Applied}
use layer_cake.Examples.Schedulers.{files, pending, settles}

-- A file of as many controllers as the state says, at most two.
abbrev read_some : ℕ → ℕ → Call ℕ Bytes
read_some fd size zero = (ok [], zero)
read_some fd size (suc n) = if ltb n 2 then (ok (codes "cpu "), n) else (ok [], suc n)

abbrev kernel : CgroupKernel
kernel = record { files = files; read_uninit = read_some }

read_falls :
    (fd size s : ℕ)
    → is_intr (read_some fd size s).0 ≡ true
    → pending (read_some fd size s).1 < pending s
read_falls fd size zero h = cc
read_falls fd size (suc n) h = ground arith

bytes_fall :
    (fd size s b : ℕ) (bs : Bytes)
    → (read_some fd size s).0 ≡ ok (b ∷ bs)
    → pending (read_some fd size s).1 < pending s
bytes_fall fd size zero b bs h = cc
bytes_fall fd size (suc n) b bs h = ground arith

abbrev reads_settle : ReadsSettle kernel 3 settles
reads_settle = record { read_falls = read_falls; bytes_fall = bytes_fall }

-- A digit.
abbrev digit : ℕ → Bytes
digit n = (48 + n) ∷ []

abbrev digit_signed : ℤ → Bytes
digit_signed z = codes "-5"

abbrev words : Bytes → List Bytes
words text = codes "cpu" ∷ []

abbrev policy : Policy
policy = record {
  cgroup = record { is_threaded = true; enable_psi_accounting = some false };
  cpu = some (record Cpu.default {
    weight = some (nice (negsuc 4));
    max = some (Values.Resource.max, 7);
    uclamp_min = some (value (record { into_u16 = 103 }));
  });
  memory = none;
  io = none;
  pids = none;
}

apply_to_cgroup-Applied_example :
    Gives
      (λ _.
        Applied kernel 3
          (λ _ n. n)
          (λ _. true)
          words
          settles
          reads_settle
          digit
          digit_signed
          4
          policy)
      (apply_to_cgroup kernel 3 (λ _ n. n) (λ _. true) words digit digit_signed 4 policy)
apply_to_cgroup-Applied_example =
    apply_to_cgroup-Applied kernel 3 (λ _ n. n) (λ _. true) words settles reads_settle digit
      digit_signed 4 policy

digit_short : (n : ℕ) → n < 100 → length (digit n) ≤ 2
digit_short n h = omega arith

clamp_text-parts_example :
    (whole : ℕ) × (fractional : ℕ) × (clamp_text digit (record { into_u16 = 103 })
      ≡ digit whole ++ codes "." ++ two_digits digit fractional)
    × (length (two_digits digit fractional) ≡ 2)
    × (whole ≤ 100)
    × (fractional < 100)
    × (100 * whole + fractional ≡ 103)
unfolding clamp_new
clamp_text-parts_example = clamp_text-parts digit digit_short 103 (record { into_u16 = 103 }) refl

-- A kernel that knows three capabilities, of which the state is the bounding set.
abbrev Bounding : Type 0
Bounding = ℕ → Bool

abbrev drop : ℕ → Call Bounding (Unit {0})
drop cap s =
    if ltb cap 3
    then (ok tt, λ other. if other == cap then false else s other)
    else (err (record { syscall = unknown; error = inval }), s)

abbrev bounding : Bounding → ℕ → Bool
bounding s cap = if ltb cap 3 then s cap else false

drop_removes :
    (cap : ℕ) (s : Bounding) → (drop cap s).0 ≡ ok tt → bounding (drop cap s).1 cap ≡ false
drop_removes cap s h = ground (arith, h)

drop_keeps :
    (cap other : ℕ) (s : Bounding) → other ≢ cap → bounding (drop cap s).1 other ≡ bounding s other
drop_keeps cap other s h = ground (arith, h)

drop_unknown :
    (cap other : ℕ) (s : Bounding) (e : SyscallError)
    → (drop cap s).0 ≡ err e
    → e.error.encoded ≡ inval.encoded
    → cap ≤ other
    → bounding (drop cap s).1 other ≡ false
drop_unknown cap other s e h n l = ground (arith, h, l)

-- All but the second capability are dropped.
drop_bounding_set-Dropped_example :
    Dropped drop bounding drop_removes drop_keeps drop_unknown 2 64 0
      (λ _. true)
      (drop_bounding_set drop 2 (λ _. true)).0
      (drop_bounding_set drop 2 (λ _. true)).1
drop_bounding_set-Dropped_example =
    drop_bounding_set-Dropped drop bounding drop_removes drop_keeps drop_unknown 2 (λ _. true)

abbrev keyrings : KeyringKernel
keyrings = record {
  State = ℕ;
  keyctl_assume_authority = λ key s. (ok 0, s);
  keyctl_join_session_keyring = λ s. (ok s, s + 1);
  keyctl_set_reqkey_keyring = λ keyring s. (ok 0, s);
}

apply_keyring_policy-Restricted_example :
    Gives (λ _. Restricted keyrings reset) (apply_keyring_policy keyrings reset)
apply_keyring_policy-Restricted_example = apply_keyring_policy-Restricted keyrings reset

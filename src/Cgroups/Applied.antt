-- ===== src/Cgroups/Applied.antt =====
-- What a cgroup policy that has been applied has done: `apply_to_cgroup` of
-- crates/bubblebox/src/platform/linux/cgroups/policy.rs.
use mathlib.Core.List.{Memᴰ}
use layer_cake.Prelude.{ℕ, ◌≡◌, refl, Bool, true, false, Bytes, List, Option, none, some}
use layer_cake.Prelude.Int.{ℤ}
use layer_cake.Prelude.Text.{codes}
use layer_cake.Meowix.Gives.{Gives, bind-Gives, weaken-Gives, pure-Gives, fail-Gives}
use layer_cake.Meowix.Files.{Settles}
use layer_cake.Cgroups.Errors.{CgroupController}
use layer_cake.Cgroups.Files.{OnHost, Files, Wrote}
use layer_cake.Cgroups.Core
use layer_cake.Cgroups.Cpu
use layer_cake.Cgroups.Memory
use layer_cake.Cgroups.Io
use layer_cake.Cgroups.Pids
use layer_cake.Cgroups.Policy.{CgroupKernel, Policy, apply_controller, apply_to_cgroup}
use layer_cake.Cgroups.Reading.{ReadsSettle, Listed, parse_controllers-Found}

-- A controller that is configured is one of the names, and its files have taken their texts.
abbrev pub Configured :
    {C : Type 0} → (Files → Type 0) → (C → Files) → Bytes → List Bytes → Option C → Type 0
Configured W plan key names none = Unit
Configured W plan key names (some c) = Memᴰ key names × W (plan c)

module _ (kernel : CgroupKernel) (fuel : ℕ) (reserve : Bytes → ℕ → ℕ) (is_utf8 : Bytes → Bool)
    (split_whitespace : Bytes → List Bytes) (k : Settles (CgroupKernel.files kernel) fuel)
    (r : ReadsSettle kernel fuel k) where
  open kernel use {files}

  apply_controller-Configured :
      {C : Type 0} (W : Files → Type 0) (plan : C → Files) (key : Bytes) (names : List Bytes)
      (name : CgroupController) (available : Bool) (o : Option C)
      (apply : C → OnHost files fuel (Unit {0}))
      → (available ≡ true → Memᴰ key names)
      → ((c : C) → Gives (λ _. W (plan c)) (apply c))
      → Gives
          (λ _. Configured W plan key names o)
          (apply_controller kernel fuel reserve is_utf8 split_whitespace name available o apply)
  unfolding apply_controller
  apply_controller-Configured W plan key names name available none apply found h = pure-Gives _ _ tt
  apply_controller-Configured W plan key names name true (some c) apply found h =
      weaken-Gives _ _ _ (h c) (λ _ w. (found refl, w))
  apply_controller-Configured W plan key names name false (some c) apply found h = fail-Gives _ _

  module _ (format : ℕ → Bytes) (format_signed : ℤ → Bytes) where
    -- What has been done for a policy.
    abbrev pub Applied : ℕ → Policy → Type 0
    Applied dir p =
        Wrote files fuel k dir (Core.plan p.cgroup)
        × ((text : Bytes) × Listed kernel fuel reserve is_utf8 split_whitespace k r dir text
            × Configured (Wrote files fuel k dir) (Cpu.plan format format_signed) (codes "cpu")
                (split_whitespace text) p.cpu
            × Configured (Wrote files fuel k dir) (Memory.plan format) (codes "memory")
                (split_whitespace text) p.memory
            × Configured (Wrote files fuel k dir) Io.plan (codes "io") (split_whitespace text) p.io
            × Configured (Wrote files fuel k dir) (Pids.plan format) (codes "pids")
                (split_whitespace text) p.pids)

    -- Where interrupted calls and reads that answer bytes lower a measure below the fuel,
    -- `apply_to_cgroup` comes to an end. If it succeeds, each file that the policy gives a text has
    -- taken it whole, and each controller that the policy configures is named in a text that
    -- `cgroup.controllers` has been read with.
    pub apply_to_cgroup-Applied :
        (dir : ℕ) (p : Policy)
        → Gives
            (λ _. Applied dir p)
            (apply_to_cgroup kernel fuel reserve is_utf8 split_whitespace format format_signed dir
              p)
    unfolding apply_to_cgroup
    apply_to_cgroup-Applied dir p =
        bind-Gives _ _ _ _ (Core.apply_to_cgroup-Wrote files fuel k dir p.cgroup) (λ _ core.
          bind-Gives _ _ _ _
            (parse_controllers-Found kernel fuel reserve is_utf8 split_whitespace k r dir)
            (λ c (text, listed, found).
              let names = split_whitespace text in
              bind-Gives _ _ _ _
                (apply_controller-Configured (Wrote files fuel k dir)
                  (Cpu.plan format format_signed) _ names _ c.cpu p.cpu _ found.cpu
                  (Cpu.apply_to_cgroup-Wrote files fuel format format_signed k dir))
                (λ _ cpu.
                  bind-Gives _ _ _ _
                    (apply_controller-Configured (Wrote files fuel k dir) (Memory.plan format) _
                      names _ c.memory p.memory _ found.memory
                      (Memory.apply_to_cgroup-Wrote files fuel format k dir))
                    (λ _ memory.
                      bind-Gives _ _ _ _
                        (apply_controller-Configured (Wrote files fuel k dir) Io.plan _ names _ c.io
                          p.io _ found.io (Io.apply_to_cgroup-Wrote files fuel k dir))
                        (λ _ io.
                          weaken-Gives _ _ _
                            (apply_controller-Configured (Wrote files fuel k dir) (Pids.plan format)
                              _ names _ c.pids p.pids _ found.pids
                              (Pids.apply_to_cgroup-Wrote files fuel format k dir))
                            (λ _ pids. (core, (text, listed, cpu, memory, io, pids))))))))

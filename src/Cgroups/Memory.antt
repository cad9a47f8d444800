-- ===== src/Cgroups/Memory.antt =====
-- MemoryController of
-- crates/bubblebox/src/platform/linux/cgroups/policy.rs.
use layer_cake.Prelude.{ℕ, Bool, false, Bytes, [], Option, none, some, not}
use layer_cake.Prelude.Text.{codes}
use layer_cake.Meowix.Gives.{Gives, ◌>>◌, pure}
use layer_cake.Meowix.Files.{FileKernel, Settles}
use layer_cake.Cgroups.Values.{Resource, into_str, switch}
use layer_cake.Cgroups.Files.{
  OnHost, put, when, if_some, Files, flagged, given, Wrote, put-Wrote, when-Wrote, if_some-Wrote,
  nothing-Wrote,
}

pub record MemoryController : Type 0 where
  pub subtree_control : Bool
  pub min : Option (Resource ℕ)
  pub low : Option (Resource ℕ)
  pub high : Option (Resource ℕ)
  pub max : Option (Resource ℕ)
  pub is_indivisible : Option Bool
  pub swap_high : Option (Resource ℕ)
  pub swap_max : Option (Resource ℕ)
  pub zswap_max : Option (Resource ℕ)
  pub disable_zswap_writeback : Option Bool

abbrev pub default : MemoryController
default = record {
  subtree_control = false;
  min = none;
  low = none;
  high = none;
  max = none;
  is_indivisible = none;
  swap_high = none;
  swap_max = none;
  zswap_max = none;
  disable_zswap_writeback = none;
}

unfoldable pub subtree_control : Bool → MemoryController → MemoryController
subtree_control b c = record c { subtree_control = b }

unfoldable pub min : Resource ℕ → MemoryController → MemoryController
min x c = record c { min = some x }

unfoldable pub clear_min : MemoryController → MemoryController
clear_min c = record c { min = none }

unfoldable pub low : Resource ℕ → MemoryController → MemoryController
low x c = record c { low = some x }

unfoldable pub clear_low : MemoryController → MemoryController
clear_low c = record c { low = none }

unfoldable pub high : Resource ℕ → MemoryController → MemoryController
high x c = record c { high = some x }

unfoldable pub clear_high : MemoryController → MemoryController
clear_high c = record c { high = none }

unfoldable pub max : Resource ℕ → MemoryController → MemoryController
max x c = record c { max = some x }

unfoldable pub clear_max : MemoryController → MemoryController
clear_max c = record c { max = none }

unfoldable pub indivisible : Bool → MemoryController → MemoryController
indivisible x c = record c { is_indivisible = some x }

unfoldable pub clear_indivisible : MemoryController → MemoryController
clear_indivisible c = record c { is_indivisible = none }

unfoldable pub swap_high : Resource ℕ → MemoryController → MemoryController
swap_high x c = record c { swap_high = some x }

unfoldable pub clear_swap_high : MemoryController → MemoryController
clear_swap_high c = record c { swap_high = none }

unfoldable pub swap_max : Resource ℕ → MemoryController → MemoryController
swap_max x c = record c { swap_max = some x }

unfoldable pub unset_swap_max : MemoryController → MemoryController
unset_swap_max c = record c { swap_max = none }

unfoldable pub zswap_max : Resource ℕ → MemoryController → MemoryController
zswap_max x c = record c { zswap_max = some x }

unfoldable pub unset_zswap_max : MemoryController → MemoryController
unset_zswap_max c = record c { zswap_max = none }

unfoldable pub disable_zswap_writeback : Bool → MemoryController → MemoryController
disable_zswap_writeback x c = record c { disable_zswap_writeback = some x }

unfoldable pub clear_disable_zswap_writeback : MemoryController → MemoryController
clear_disable_zswap_writeback c = record c { disable_zswap_writeback = none }

module _ (files : FileKernel) (fuel : ℕ) (format : ℕ → Bytes) where
  -- `apply_to_cgroup`
  unfoldable pub apply_to_cgroup : ℕ → MemoryController → OnHost files fuel (Unit {0})
  unfolding when if_some
  apply_to_cgroup dir c = do
    when files fuel c.subtree_control
        (put files fuel dir (codes "cgroup.subtree_control") (codes "+memory"))
    if_some files fuel c.min (λ x. put files fuel dir (codes "memory.min") (into_str format x))
    if_some files fuel c.low (λ x. put files fuel dir (codes "memory.low") (into_str format x))
    if_some files fuel c.high (λ x. put files fuel dir (codes "memory.high") (into_str format x))
    if_some files fuel c.max (λ x. put files fuel dir (codes "memory.max") (into_str format x))
    if_some files fuel c.is_indivisible
        (λ x. put files fuel dir (codes "memory.oom.group") (switch x))
    if_some files fuel c.swap_high
        (λ x. put files fuel dir (codes "memory.swap.high") (into_str format x))
    if_some files fuel c.swap_max
        (λ x. put files fuel dir (codes "memory.swap.max") (into_str format x))
    if_some files fuel c.zswap_max
        (λ x. put files fuel dir (codes "memory.zswap.max") (into_str format x))
    if_some files fuel c.disable_zswap_writeback
        (λ x. put files fuel dir (codes "memory.zswap.writeback") (switch (not x)))
    pure tt

-- The files that are to be written, in order.
module _ (format : ℕ → Bytes) where
  abbrev pub plan : MemoryController → Files
  plan c =
      (flagged c.subtree_control (codes "cgroup.subtree_control", codes "+memory")
        (given c.min (λ x. (codes "memory.min", into_str format x))
          (given c.low (λ x. (codes "memory.low", into_str format x))
            (given c.high (λ x. (codes "memory.high", into_str format x))
              (given c.max (λ x. (codes "memory.max", into_str format x))
                (given c.is_indivisible (λ x. (codes "memory.oom.group", switch x))
                  (given c.swap_high (λ x. (codes "memory.swap.high", into_str format x))
                    (given c.swap_max (λ x. (codes "memory.swap.max", into_str format x))
                      (given c.zswap_max (λ x. (codes "memory.zswap.max", into_str format x))
                        (given c.disable_zswap_writeback
                          (λ x. (codes "memory.zswap.writeback", switch (not x))) []))))))))))

module _ (files : FileKernel) (fuel : ℕ) (format : ℕ → Bytes) (k : Settles files fuel) where
  pub apply_to_cgroup-Wrote :
      (dir : ℕ) (c : MemoryController)
      → Gives
          (λ _. Wrote files fuel k dir (plan format c))
          (apply_to_cgroup files fuel format dir c)
  unfolding apply_to_cgroup
  apply_to_cgroup-Wrote dir c = when-Wrote files fuel k dir _ _ _ _ (
      if_some-Wrote files fuel k dir c.min _ _ _ _ (λ x. put-Wrote files fuel k dir _)
        (if_some-Wrote files fuel k dir c.low _ _ _ _ (λ x. put-Wrote files fuel k dir _)
          (if_some-Wrote files fuel k dir c.high _ _ _ _ (λ x. put-Wrote files fuel k dir _)
            (if_some-Wrote files fuel k dir c.max _ _ _ _ (λ x. put-Wrote files fuel k dir _)
              (if_some-Wrote files fuel k dir c.is_indivisible _ _ _ _
                (λ x. put-Wrote files fuel k dir _)
                (if_some-Wrote files fuel k dir c.swap_high _ _ _ _
                  (λ x. put-Wrote files fuel k dir _)
                  (if_some-Wrote files fuel k dir c.swap_max _ _ _ _
                    (λ x. put-Wrote files fuel k dir _)
                    (if_some-Wrote files fuel k dir c.zswap_max _ _ _ _
                      (λ x. put-Wrote files fuel k dir _)
                      (if_some-Wrote files fuel k dir c.disable_zswap_writeback _ _ _ _
                        (λ x. put-Wrote files fuel k dir _)
                        (nothing-Wrote files fuel k dir))))))))))

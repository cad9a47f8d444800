-- ===== src/Spawn/Attach/Root.antt =====
-- The root of a guest, and how it takes the place of the old one, in `guest_post_clone` of
-- crates/bubblebox/src/platform/linux/spawn/mod.rs.
use layer_cake.Prelude.{ℕ, [], ◌∷◌}
use layer_cake.Prelude.Text.{codes}
use layer_cake.Meowix.Gives.{◌>>◌, Gives, bind-Gives, weaken-Gives}
use layer_cake.Mounts.{OwnedFd}
use layer_cake.Spawn.Mounts.{
  fsopen_cloexec, fsmount_cloexec, at_empty_path, cwd, move_mount_beneath, mnt_detach, sys,
  move_mount_f_empty_path,
}
use layer_cake.Spawn.Mounts.Steps.{and_close-Gives}
use layer_cake.Meowix.Answers.{Answered, call-Answered}
use layer_cake.Spawn.Attach.Answers.{InTurn, calls-InTurn}
use layer_cake.Spawn.Attach.{AttachKernel, mount_root, enter_root}

module _ (kernel : AttachKernel) where
  open kernel use {mounts, move_mount, mount_setattr, fchdir, chroot, umount2}
  open mounts use {State, fsopen, fsconfig_set_string, fsconfig_cmd_create_excl, fsmount, chdir}

  -- A new tmpfs has been opened, configured and created, and fsmount has answered with its mount.
  abbrev pub IsRoot : OwnedFd → Type 0
  IsRoot root =
      (fs : ℕ) × Answered (fsopen (codes "tmpfs") (fsopen_cloexec ∷ [])) fs
      × Answered (fsconfig_set_string fs (codes "mode") (codes "755")) tt
      × Answered (fsconfig_cmd_create_excl fs) tt
      × Answered (fsmount fs (fsmount_cloexec ∷ []) 0x6) root

  -- The root has been made read-only and moved beneath the old one.
  abbrev pub IsEntered : OwnedFd → Type 0
  IsEntered root =
      InTurn
        (mount_setattr root (codes "") (at_empty_path ∷ [])
          (record { attr_set = 0xf; propagation = [] }))
        (fchdir root)
        (move_mount root (codes "") cwd (codes "/")
          (move_mount_f_empty_path ∷ move_mount_beneath ∷ []))

  -- The old root has been left and unmounted.
  abbrev pub IsLeft : Type 0
  IsLeft = InTurn (chroot (codes ".")) (umount2 (codes ".") (mnt_detach ∷ [])) (chdir (codes "/"))

  module _ (fuel : ℕ) where
    pub mount_root-Gives : Gives IsRoot (mount_root kernel fuel)
    unfolding mount_root
    mount_root-Gives = bind-Gives _ _ _ _ (call-Answered _ _) (λ fs opened.
        and_close-Gives mounts _ _ _ (
          bind-Gives _ _ _ _ (call-Answered _ _) (λ _ mode.
            bind-Gives _ _ _ _ (call-Answered _ _) (λ _ created.
              weaken-Gives _ _ _ (call-Answered _ _)
                (λ _ made. (fs, opened, mode, created, made))))))

    pub enter_root-Gives :
        (root : OwnedFd) → Gives (λ _. IsEntered root) (enter_root kernel fuel root)
    unfolding enter_root
    enter_root-Gives root = calls-InTurn _ _ _ _

    pub leave-Gives :
        Gives
          (λ _. IsLeft)
          (sys mounts (chroot (codes "."))
            >> (sys mounts (umount2 (codes ".") (mnt_detach ∷ []))
                >> sys mounts (chdir (codes "/"))))
    leave-Gives = calls-InTurn _ _ _ _

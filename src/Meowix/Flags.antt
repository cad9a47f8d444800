-- ===== src/Meowix/Flags.antt =====
-- The flags of the calls in crates/meowix/src/syscalls.rs, from the crate linux_raw_sys. A set of
-- flags is the list of those that are set, and flags that are zero are left out.
use layer_cake.Prelude.{List}

-- The flags of the calls.
pub data Flag : Type 0 where
  fsopen_cloexec fsmount_cloexec : Flag
  open_tree_namespace open_tree_cloexec open_tree_clone : Flag
  at_empty_path at_recursive at_symlink_nofollow : Flag
  clone_newns ms_private : Flag
  o_path o_cloexec o_directory : Flag
  resolve_no_magiclinks resolve_beneath resolve_no_xdev resolve_in_root resolve_no_symlinks : Flag
  o_creat o_wronly o_rdwr statx_type : Flag
  clone_newcgroup clone_newtime clone_newnet clone_newuser clone_newuts clone_newipc : Flag
  clone_newpid clone_pidfd clone_autoreap clone_nnp clone_pidfd_autokill : Flag
  clone_clear_sighand clone_into_cgroup ms_rec : Flag
  move_mount_f_empty_path move_mount_beneath mnt_detach : Flag

abbrev pub Flags : Type 0
Flags = List Flag

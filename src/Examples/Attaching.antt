-- ===== src/Examples/Attaching.antt =====
-- A kernel on which everything is attached: its state is what has been written.
use layer_cake.Prelude.{refl, ℕ, ◌≡◌, true, Bytes, [], ◌∷◌, List, ok, err}
use layer_cake.Prelude.Text.{codes}
use layer_cake.Meowix.Errors.{unknown}
use layer_cake.Meowix.Act.{done, Call}
use layer_cake.Meowix.Gives.{Gives, ◌>>=◌}
use layer_cake.Mounts.{user}
use layer_cake.Spawn.Mounts.{MountKernel, ResolvedMount, and_close}
use layer_cake.Meowix.Turns.{turns}
use layer_cake.Spawn.Attach.{AttachKernel, noent, set_up_root}
use layer_cake.Examples.GuestPaths.{path_a, path_ab, path_abc}
use layer_cake.Examples.Pipes.{write}

abbrev opened : Call Bytes ℕ
opened s = (ok 3, s)

abbrev succeed : Call Bytes (Unit {0})
succeed s = (ok tt, s)

-- Nothing exists.
abbrev absent : Call Bytes ℕ
absent s = (err (record { error = noent; syscall = unknown }), s)

abbrev mounts : MountKernel
mounts = record {
  State = Bytes;
  fsopen = λ name flags. opened;
  fsconfig_set_flag = λ fs key. succeed;
  fsconfig_set_string = λ fs key value. succeed;
  fsconfig_set_fd = λ fs key value. succeed;
  fsconfig_cmd_create = λ fs. succeed;
  fsconfig_cmd_create_excl = λ fs. succeed;
  fsmount = λ fs flags attributes. opened;
  open_tree = λ dir path flags. opened;
  open_tree_attr = λ dir path flags attr. opened;
  unshare = λ flags. succeed;
  setns = λ namespace flags. succeed;
  chdir = λ path. succeed;
  mkdirat = λ dir path mode. succeed;
  openat2 = λ dir path flags resolve. opened;
  statx = λ n s. (ok (record { has_ino = true; dev_major = 8; dev_minor = 1; ino = 2 }), s);
  close = λ n s. s;
}

abbrev kernel : AttachKernel
kernel = record {
  mounts = mounts;
  statx_mode = λ dir name flags mask. absent;
  openat2_mode = λ dir name flags mode resolve. opened;
  write = λ file. write;
  move_mount = λ mount from dir name flags. succeed;
  symlinkat = λ target dir name. succeed;
  mount_setattr = λ mount path flags attr. succeed;
  fchdir = λ dir. succeed;
  chroot = λ path. succeed;
  umount2 = λ path flags. succeed;
}

-- A mount at `/a`, and below it a file of two bytes and a symbolic link to it.
abbrev resolved : List ResolvedMount
resolved =
    ResolvedMount.fd 4 path_a true
    ∷ ResolvedMount.file (record { contents = codes "ok"; owner = user; permissions = 0o644 })
        path_ab
    ∷ ResolvedMount.symlink path_ab path_abc
    ∷ []

abbrev taken : ℕ → Bytes → Bytes
taken file s = s

-- That run succeeds.
set_up_root_run : (set_up_root kernel 3 resolved []).0 ≡ done tt
unfolding set_up_root ◌>>=◌ and_close turns
set_up_root_run = refl

-- ===== src/Examples/Namespaces.antt =====
-- The files of namespaces at concrete inputs.
use layer_cake.Prelude.{
  ℕ, ◌+◌, ◌%◌, ◌^◌, ◌≤◌, ◌<◌, ◌≡◌, true, Bytes, [], ◌∷◌, length, none, some, ok, if◌then◌else◌,
  arith,
}
use layer_cake.Prelude.Int.{ℤ, negsuc, IsSigned}
use layer_cake.Prelude.Text.{codes}
use layer_cake.Meowix.Gives.{◌>>=◌, ◌>>◌, pure, retried}
use layer_cake.Meowix.Flags.{o_wronly, o_cloexec, o_path, o_directory, resolve_beneath}
use layer_cake.Meowix.Files.{FileKernel, and_drop}
use layer_cake.Spawn.Wire.{syscall}
use layer_cake.Namespaces.{TimeOffset}
use layer_cake.Namespaces.Apply.{write_timens_offsets, write_simple_uid_gid_map, write_below}
use layer_cake.Namespaces.Calls.{
  write_text, write_map_text, write_timens_offsets_lem, write_simple_uid_gid_map_lem,
}
use layer_cake.Examples.Schedulers.{files}

-- The last digit.
abbrev digit : ℕ → Bytes
digit n = (48 + n % 10) ∷ []

abbrev digit_signed : ℤ → Bytes
digit_signed z = codes "-5"

digit_u32 : (n : ℕ) → n < 2 ^ 32 → length (digit n) ≤ 10
digit_u32 n h = omega arith

digit_i64 : (z : ℤ) → IsSigned 64 z → length (digit_signed z) ≤ 20
digit_i64 z h = omega arith

-- Five seconds back.
abbrev back : TimeOffset
back = record { seconds = negsuc 4; nanoseconds = 3 }

write_timens_offsets_lem_example :
    write_timens_offsets digit digit_signed files 3 4 none (some back) ≡ (
      retried syscall 3 (
        FileKernel.openat2 files 4
          (codes "self/timens_offsets")
          (o_wronly ∷ o_cloexec ∷ [])
          (resolve_beneath ∷ []))
      >>= λ fd. and_drop files fd (
          write_text digit digit_signed digit_u32 digit_i64 files 3 fd (codes "monotonic ") none
          >> write_text digit digit_signed digit_u32 digit_i64 files 3 fd
              (codes "boottime ")
              (some back)))
write_timens_offsets_lem_example =
    write_timens_offsets_lem digit digit_signed digit_u32 digit_i64 files 3 4 none (some back) tt
      (omega arith, omega arith)

write_simple_uid_gid_map_lem_example :
    write_simple_uid_gid_map digit digit_signed files 3 4 8 9 0 0 true ≡ (
      retried syscall 3 (
        FileKernel.openat2 files 4
          (codes "self")
          (o_path ∷ o_cloexec ∷ o_directory ∷ [])
          (resolve_beneath ∷ []))
      >>= λ self. and_drop files self (
          write_map_text digit digit_signed digit_u32 digit_i64 files 3 self (codes "uid_map") 0 8
          >> ((if true
                then write_below digit digit_signed files 3 self
                    (codes "setgroups")
                    (ok (codes "deny"))
                else pure tt)
              >> write_map_text digit digit_signed digit_u32 digit_i64 files 3 self
                  (codes "gid_map")
                  0
                  9)))
write_simple_uid_gid_map_lem_example =
    write_simple_uid_gid_map_lem digit digit_signed digit_u32 digit_i64 files 3 4 8 9 0 0 true
      (omega arith) (omega arith) (omega arith) (omega arith)

-- ===== src/Namespaces/Calls.antt =====
-- The calls that write the files of a new user and time namespace:
-- crates/bubblebox/src/platform/linux/spawn/namespace.rs, without its buffers.
use layer_cake.Prelude.{
  ℕ, ◌^◌, ◌≤◌, ◌<◌, ◌≡◌, refl, ap, ◌∙◌, Bool, Bytes, [], ◌∷◌, length, Option, none, some, ok,
  if◌then◌else◌, arith,
}
use layer_cake.Prelude.Int.{ℤ, IsSigned}
use layer_cake.Prelude.Text.{codes}
use layer_cake.Meowix.Gives.{◌>>=◌, ◌>>◌, pure, retried, lift_ok, bind_assoc, bind_cong, bind_pure}
use layer_cake.Meowix.Flags.{o_wronly, o_cloexec, o_path, o_directory, resolve_beneath}
use layer_cake.Meowix.Files.{FileKernel, and_drop}
use layer_cake.Spawn.Wire.{syscall}
use layer_cake.Spawn.Fmt.{zeros}
use layer_cake.Namespaces.{TimeOffset}
use layer_cake.Namespaces.Apply.{
  size_offset_buffer, size_uid_gid_map_buffer, Guest, write_value, write_below, write_offset,
  write_timens_offsets, write_map, write_simple_uid_gid_map,
}
use layer_cake.Namespaces.Written.{
  offset_text, map_text, IsOffset, put_offset-Holds, put_map-Holds, part-Holds, offset_size,
  map_size, length-zeros,
}

-- Numbers are written with as many characters as their types may need.
module _ (format : ℕ → Bytes) (format_signed : ℤ → Bytes)
    (format_u32 : (n : ℕ) → n < 2 ^ 32 → length (format n) ≤ 10)
    (format_i64 : (z : ℤ) → IsSigned 64 z → length (format_signed z) ≤ 20) (files : FileKernel)
    (fuel : ℕ) where
  open files use {openat2}

  -- The write of an offset, if there is one.
  abbrev pub write_text :
      ℕ → Bytes → Option TimeOffset → Guest format format_signed files fuel (Unit {0})
  write_text fd clock none = pure tt
  write_text fd clock (some t) =
      write_value format format_signed files fuel fd
        (offset_text format format_signed format_u32 format_i64 clock t)

  abbrev pub AreOffsets : Option TimeOffset → Type 0
  AreOffsets none = Unit
  AreOffsets (some t) = IsOffset format format_signed format_u32 format_i64 t

  write_offset-write_text :
      (fd : ℕ) (clock : Bytes) (o : Option TimeOffset) (buffer : Bytes)
      → length clock ≤ 10
      → AreOffsets o
      → length buffer ≡ 41
      → (buffer' : Bytes) × (length buffer' ≡ 41)
        × ((k : Bytes → Guest format format_signed files fuel (Unit {0}))
            → (write_offset format format_signed files fuel fd clock o buffer >>= k)
              ≡ (write_text fd clock o >> k buffer'))
  unfolding write_offset pure ◌>>=◌
  write_offset-write_text fd clock none buffer short valid size = (buffer, size, λ k. refl)
  write_offset-write_text fd clock (some t) buffer short valid size =
      let (b, put, holds, room) =
        put_offset-Holds format format_signed format_u32 format_i64 clock t buffer short valid
          size in
      (
        b.0,
        holds.size,
        λ k.
            ap (λ m. m >>= k) (lift_ok _ put ∙ lift_ok _ (part-Holds 41 _ b room holds))
            ∙ bind_assoc (write_text fd clock (some t)) (λ _. pure b.0) k,
      )

  -- A buffer is never too small for what is written to `timens_offsets`: for offsets in the ranges
  -- of their types, `write_timens_offsets` opens the file and writes the line of each offset that is
  -- given, in order, and nothing else.
  pub write_timens_offsets_lem :
      (proc : ℕ) (monotonic boottime : Option TimeOffset)
      → AreOffsets monotonic
      → AreOffsets boottime
      → write_timens_offsets format format_signed files fuel proc monotonic boottime ≡ (
          retried syscall fuel (
            openat2 proc
              (codes "self/timens_offsets")
              (o_wronly ∷ o_cloexec ∷ [])
              (resolve_beneath ∷ []))
          >>= λ fd. and_drop files fd (
              write_text fd (codes "monotonic ") monotonic
              >> write_text fd (codes "boottime ") boottime))
  unfolding write_timens_offsets
  write_timens_offsets_lem proc monotonic boottime hm hb = bind_cong _ _ _ (λ fd.
      ap (and_drop files fd) (
        let size = length-zeros size_offset_buffer ∙ offset_size in
        let (buffer, size', first) =
          write_offset-write_text fd (codes "monotonic ") monotonic (zeros size_offset_buffer)
            (omega arith) hm size in
        let (_, _, second) =
          write_offset-write_text fd (codes "boottime ") boottime buffer (omega arith) hb size' in
        first _ ∙ bind_cong _ _ _ (λ _. second _ ∙ bind_pure _)))

  abbrev pub write_map_text : ℕ → Bytes → ℕ → ℕ → Guest format format_signed files fuel (Unit {0})
  write_map_text self path dest source =
      write_below format format_signed files fuel self path
        (ok (map_text format format_signed format_u32 format_i64 dest source))

  write_map-write_map_text :
      (self : ℕ) (path : Bytes) (dest source : ℕ) (buffer : Bytes)
      → dest < 2 ^ 32
      → source < 2 ^ 32
      → length buffer ≡ 23
      → (buffer' : Bytes) × (length buffer' ≡ 23)
        × ((k : Bytes → Guest format format_signed files fuel (Unit {0}))
            → (write_map format format_signed files fuel self path dest source buffer >>= k)
              ≡ (write_map_text self path dest source >> k buffer'))
  unfolding write_map pure ◌>>=◌
  write_map-write_map_text self path dest source buffer d s size =
      let (b, put, holds, room) =
        put_map-Holds format format_signed format_u32 format_i64 dest source buffer d s size in
      (
        b.0,
        holds.size,
        λ k.
            ap (λ m. m >>= k)
              (lift_ok _ put
                ∙ ap (λ v. write_below format format_signed files fuel self path v >> pure b.0)
                    (part-Holds 23 _ b room holds))
            ∙ bind_assoc (write_map_text self path dest source) (λ _. pure b.0) k,
      )

  -- A buffer is never too small for what is written to `uid_map` and `gid_map`: for ids of 32 bits,
  -- `write_simple_uid_gid_map` opens the directory `self` of proc, and writes the map of the user
  -- id, the text `deny` to `setgroups` if that is asked for, and the map of the group id, in this
  -- order, and nothing else.
  pub write_simple_uid_gid_map_lem :
      (proc source_uid source_gid dest_uid dest_gid : ℕ) (deny_setgroups : Bool)
      → source_uid < 2 ^ 32
      → source_gid < 2 ^ 32
      → dest_uid < 2 ^ 32
      → dest_gid < 2 ^ 32
      → write_simple_uid_gid_map format format_signed files fuel proc source_uid source_gid dest_uid
          dest_gid deny_setgroups
        ≡ (retried syscall fuel (
              openat2 proc
                (codes "self")
                (o_path ∷ o_cloexec ∷ o_directory ∷ [])
                (resolve_beneath ∷ []))
            >>= λ self. and_drop files self (
                write_map_text self (codes "uid_map") dest_uid source_uid
                >> ((if deny_setgroups
                      then write_below format format_signed files fuel self
                          (codes "setgroups")
                          (ok (codes "deny"))
                      else pure tt)
                    >> write_map_text self (codes "gid_map") dest_gid source_gid)))
  unfolding write_simple_uid_gid_map
  write_simple_uid_gid_map_lem proc source_uid source_gid dest_uid dest_gid deny su sg du dg =
      bind_cong _ _ _ (λ self. ap (and_drop files self) (
        let size = length-zeros size_uid_gid_map_buffer ∙ map_size in
        let (buffer, size', first) =
          write_map-write_map_text self (codes "uid_map") dest_uid source_uid
            (zeros size_uid_gid_map_buffer) du su size in
        let (_, _, second) =
          write_map-write_map_text self (codes "gid_map") dest_gid source_gid buffer dg sg size' in
        first _ ∙ bind_cong _ _ _ (λ _. bind_cong _ _ _ (λ _. second _ ∙ bind_pure _))))

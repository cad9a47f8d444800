-- ===== src/Meowix/Netlink/Finished.antt =====
-- The buffer of a message of crates/meowix/src/netlink.rs, and its header.
use layer_cake.Prelude.{
  ℕ, ◌+◌, ◌*◌, ◌/◌, ◌%◌, ◌^◌, ◌≤◌, ◌<◌, ◌≡◌, refl, ap, sym, ◌∙◌, true, false, Bytes, [], ◌++◌, take,
  drop, length, length-append, take-append, drop-append, take-drop, append_assoc, leb, ltb, ok,
  arith,
}
use layer_cake.Prelude.Buffers.{Holds, splice, splice-Holds}
use layer_cake.Meowix.Netlink.{
  Cursor, Message, write, write_bytes, next_multiple, align, attribute, write_attribute, header,
  finished, finish_netlink_message,
}

module _ (n : ℕ) (text : Bytes) (bs : Bytes) (room : length text + length bs ≤ n) where
  pub write-Holds :
      (b : Cursor)
      → Holds n text b
      → (write b bs ≡ ok (splice b bs)) × Holds n (text ++ bs) (splice b bs)
  unfolding write
  write-Holds (buffer, offset) h =
      let fits : leb (offset + length bs) (length buffer) ≡ true =
        ground (arith, room, h.offset, h.size) in
      (rw fits refl, splice-Holds n text (buffer, offset) bs room h)

  write_bytes-Holds :
      (b : Cursor)
      → n < 2 ^ 64
      → Holds n text b
      → (write_bytes b bs ≡ ok (splice b bs)) × Holds n (text ++ bs) (splice b bs)
  unfolding write_bytes
  write_bytes-Holds (buffer, offset) small h =
      let fits : leb (offset + length bs) (length buffer) ≡ true =
        ground (arith, room, h.offset, h.size) in
      let no_overflow : ltb (offset + length bs) (2 ^ 64) ≡ true =
        ground (arith, room, small, h.offset, h.size) in
      (rw (no_overflow, fits) refl, splice-Holds n text (buffer, offset) bs room h)

module _ (u16_bytes u32_bytes : ℕ → Bytes) (u16_size : (n : ℕ) → length (u16_bytes n) ≡ 2)
    (u32_size : (n : ℕ) → length (u32_bytes n) ≡ 4) where
  -- An attribute of four bytes at an offset that is aligned.
  pub write_attribute-Holds :
      (n ty : ℕ) (text payload : Bytes) (b : Cursor)
      → length payload ≡ 4
      → n < 2 ^ 63
      → length text + 8 ≤ n
      → (length text + 8 + 3) / 4 * 4 ≡ length text + 8
      → Holds n text b
      → (b' : Cursor) × (write_attribute u16_bytes u32_bytes b ty payload ≡ ok b')
        × Holds n (text ++ (attribute u16_bytes u32_bytes 8 ty ++ payload)) b'
  unfolding write_attribute align next_multiple
  write_attribute-Holds n ty text payload b four small room aligned h =
      let a = attribute u16_bytes u32_bytes (4 + length payload) ty in
      let eight : attribute u16_bytes u32_bytes 8 ty ≡ a =
        ap (λ k. attribute u16_bytes u32_bytes (4 + k) ty) (sym four) in
      let size : length a ≡ 4 =
        length-append (u16_bytes _) (u16_bytes ty) ∙ omega (arith, u16_size _, u16_size ty) in
      let (first, h1) = write-Holds n text a (omega (arith, size, room)) b h in
      let (second, h2) =
        write_bytes-Holds n (text ++ a) payload
          (omega (arith, size, room, four, length-append text a)) (splice b a)
          (omega (arith, small)) h1 in
      let b' = splice (splice b a) payload in
      let end : b'.1 ≡ length text + 8 =
        h2.offset
        ∙ omega (arith, length-append (text ++ a) payload, length-append text a, size, four) in
      let same : (b'.1 + 3) / 4 * 4 ≡ b'.1 = rw end aligned in
      let fits : ltb (b'.1) (2 ^ 64) ≡ true = ground (arith, end, room, small) in
      let inside : ltb (length b'.0) b'.1 ≡ false = ground (arith, end, room, h2.size) in
      (
        b',
        rw (first, second, same, fits, inside) refl,
        rw (eight, sym (append_assoc text a payload)) h2,
      )

  length-header :
      (size ty flags sequence : ℕ) → length (header u16_bytes u32_bytes size ty flags sequence) ≡ 16
  length-header size ty flags sequence =
      let a = u32_bytes (size % 2 ^ 32) in
      let b = u16_bytes ty in
      let c = u16_bytes flags in
      let d = u32_bytes sequence in
      length-append (a ++ b ++ c ++ d) (u32_bytes 0)
      ∙ omega (
        arith,
        length-append (a ++ b ++ c) d,
        length-append (a ++ b) c,
        length-append a b,
        u32_size (size % 2 ^ 32),
        u16_size ty,
        u16_size flags,
        u32_size sequence,
        u32_size 0,
      )

  -- A message that has been finished: the header before the body, and the numbers.
  abbrev pub IsMessage : ℕ → ℕ → ℕ → ℕ → ℕ → Bytes → Message u16_bytes u32_bytes → Type 0
  IsMessage n size ty flags sequence body m =
      (m.message ≡ header u16_bytes u32_bytes size ty flags sequence ++ body)
      × (length m.message ≡ size)
      × (m.sequence ≡ sequence)
      × (m.next ≡ sequence + 1)
      × (length m.buffer ≡ n)

  -- The header takes the place of the first 16 bytes.
  pub finish-IsMessage :
      (n total ty flags sequence : ℕ) (front body : Bytes) (b : Cursor)
      → length front ≡ 16
      → total ≡ 16 + length body
      → total ≤ n
      → sequence + 1 < 2 ^ 32
      → Holds n (front ++ body) b
      → (m : Message u16_bytes u32_bytes) × (finish_netlink_message u16_bytes u32_bytes b ty flags
            sequence
          ≡ ok m)
        × IsMessage n total ty flags sequence body m
  unfolding finish_netlink_message finished
  finish-IsMessage n total ty flags sequence front body (buffer, size) sixteen all room small h =
      let head = header u16_bytes u32_bytes size ty flags sequence in
      let head_size = length-header size ty flags sequence in
      let both = length-append front body in
      let end : size ≡ total = omega (arith, h.offset, both, sixteen, all) in
      let rest = drop size buffer in
      let whole : buffer ≡ front ++ body ++ rest =
        sym (take-drop size buffer) ∙ ap (λ x. x ++ rest) h.beginning in
      let behind : drop (0 + length head) buffer ≡ body ++ rest =
        ap (drop (0 + length head)) (whole ∙ append_assoc front body rest)
        ∙ drop-append (0 + length head) front (body ++ rest) (omega (arith, sixteen, head_size)) in
      let after = head ++ drop (0 + length head) buffer in
      let built : after ≡ head ++ body ++ rest =
        ap (λ x. head ++ x) behind ∙ sym (append_assoc head body rest) in
      let taken : take size after ≡ head ++ body =
        ap (take size) built
        ∙ take-append size (head ++ body) rest
            (length-append head body ∙ omega (arith, head_size, end, all)) in
      let (first, h1) =
        write-Holds n [] head (omega (arith, head_size, room, all)) (buffer, 0)
          (record { offset = refl; beginning = refl; size = h.size }) in
      let next : ltb (sequence + 1) (2 ^ 32) ≡ true = ground (arith, small) in
      let fits : leb size (length after) ≡ true = ground (arith, h1.size, end, room) in
      (
        record {
          buffer = after;
          sequence = sequence;
          next = sequence + 1;
          message = take size after;
        },
        rw (first, next, fits) refl,
        (
          taken ∙ ap (λ k. header u16_bytes u32_bytes k ty flags sequence ++ body) end,
          ap length taken ∙ length-append head body ∙ omega (arith, head_size, all),
          refl,
          refl,
          h1.size,
        ),
      )

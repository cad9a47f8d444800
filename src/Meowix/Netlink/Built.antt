-- ===== src/Meowix/Netlink/Built.antt =====
-- The messages of crates/meowix/src/netlink.rs that set up the loopback device.
use layer_cake.Prelude.{
  ℕ, ◌+◌, ◌^◌, ◌≤◌, ◌<◌, ◌≡◌, refl, ap, sym, ◌∙◌, Bytes, ◌∷◌, ◌++◌, take, length, length-append,
  length-take, append_assoc, ok, ◌>>=◌, arith,
}
use layer_cake.Prelude.Buffers.{splice}
use layer_cake.Meowix.Netlink.{
  Cursor, Message, attribute, write_attribute, finish_netlink_message, address_info, loopback,
  write_add_loopback_address, link_info, write_bring_up_loopback_device,
}
use layer_cake.Meowix.Netlink.Finished.{
  write-Holds, write_attribute-Holds, finish-IsMessage, IsMessage,
}

module _ (u16_bytes u32_bytes : ℕ → Bytes) (u16_size : (n : ℕ) → length (u16_bytes n) ≡ 2)
    (u32_size : (n : ℕ) → length (u32_bytes n) ≡ 4) where
  length-attribute : (ty : ℕ) → length (attribute u16_bytes u32_bytes 8 ty ++ loopback) ≡ 8
  length-attribute ty =
      length-append (attribute u16_bytes u32_bytes 8 ty) loopback
      ∙ omega (arith, length-append (u16_bytes 8) (u16_bytes ty), u16_size 8, u16_size ty)

  length-link_info : (index : ℕ) → length (link_info u16_bytes u32_bytes index) ≡ 16
  length-link_info index =
      let a : Bytes = 0 ∷ 0 ∷ u16_bytes 0 in
      let i = u32_bytes index in
      let one = u32_bytes 1 in
      length-append (a ++ i ++ one) one
      ∙ omega (
        arith,
        length-append (a ++ i) one,
        length-append a i,
        u16_size 0,
        u32_size index,
        u32_size 1,
      )

  -- In a buffer of at least 40 bytes, and no more than an allocation may have, and for a sequence
  -- number below the greatest `u32`, the message that adds the loopback address fits: behind its
  -- header it has the address information and the address in two attributes, 40 bytes in all, and
  -- the sequence number goes up by one.
  pub write_add_loopback_address_lem :
      (buffer : Bytes) (index sequence : ℕ)
      → 40 ≤ length buffer
      → length buffer < 2 ^ 63
      → sequence + 1 < 2 ^ 32
      → (m : Message u16_bytes u32_bytes) × (write_add_loopback_address u16_bytes u32_bytes buffer
            index sequence
          ≡ ok m)
        × IsMessage u16_bytes u32_bytes u16_size u32_size
            (length buffer)
            40
            20
            0x605
            sequence
            (address_info u16_bytes u32_bytes index
              ++ (attribute u16_bytes u32_bytes 8 2 ++ loopback)
              ++ (attribute u16_bytes u32_bytes 8 1 ++ loopback))
            m
  unfolding write_add_loopback_address
  write_add_loopback_address_lem buffer index sequence room small next =
      let n = length buffer in
      let front = take 16 buffer in
      let info = address_info u16_bytes u32_bytes index in
      let local = attribute u16_bytes u32_bytes 8 2 ++ loopback in
      let address = attribute u16_bytes u32_bytes 8 1 ++ loopback in
      let sixteen : length front ≡ 16 = omega (arith, length-take 16 buffer, room) in
      let eight : length info ≡ 8 = omega (arith, u32_size index) in
      let local_size = length-attribute 2 in
      let address_size = length-attribute 1 in
      let l1 : length (front ++ info) ≡ 24 =
        omega (arith, length-append front info, sixteen, eight) in
      let l2 : length (front ++ info ++ local) ≡ 32 =
        omega (arith, length-append (front ++ info) local, l1, local_size) in
      let body_size : length (info ++ local ++ address) ≡ 24 = omega (
        arith,
        length-append (info ++ local) address,
        length-append info local,
        eight,
        local_size,
        address_size,
      ) in
      let (first, h1) =
        write-Holds n front info (omega (arith, sixteen, eight, room)) (buffer, 16)
          (record { offset = sym sixteen; beginning = refl; size = refl }) in
      let (b2, second, h2) =
        write_attribute-Holds u16_bytes u32_bytes u16_size u32_size n 2 (front ++ info) loopback
          (splice (buffer, 16) info) refl (omega (arith, small)) (omega (arith, l1, room))
          (omega (arith, l1)) h1 in
      let (b3, third, h3) =
        write_attribute-Holds u16_bytes u32_bytes u16_size u32_size n 1 (front ++ info ++ local)
          loopback b2 refl (omega (arith, small)) (omega (arith, l2, room)) (omega (arith, l2))
          h2 in
      let in_one : front ++ info ++ local ++ address ≡ front ++ (info ++ local ++ address) =
        ap (λ x. x ++ address) (append_assoc front info local)
        ∙ append_assoc front (info ++ local) address in
      let (m, last, good) =
        finish-IsMessage u16_bytes u32_bytes u16_size u32_size n 40 20 0x605 sequence front
          (info ++ local ++ address) b3 sixteen (omega (arith, body_size)) room next
          (rw in_one at h3) in
      let k3 = λ (b : Cursor). finish_netlink_message u16_bytes u32_bytes b 20 0x605 sequence in
      let k2 = λ (b : Cursor). write_attribute u16_bytes u32_bytes b 1 loopback >>= k3 in
      let k1 = λ (b : Cursor). write_attribute u16_bytes u32_bytes b 2 loopback >>= k2 in
      (
        m,
        ap (λ r. r >>= k1) first ∙ ap (λ r. r >>= k2) second ∙ ap (λ r. r >>= k3) third ∙ last,
        good,
      )

  -- In a buffer of at least 32 bytes, and for a sequence number below the greatest `u32`, the
  -- message that brings up the loopback device fits: behind its header it has the information of
  -- the link, 32 bytes in all, and the sequence number goes up by one.
  pub write_bring_up_loopback_device_lem :
      (buffer : Bytes) (index sequence : ℕ)
      → 32 ≤ length buffer
      → sequence + 1 < 2 ^ 32
      → (m : Message u16_bytes u32_bytes) × (write_bring_up_loopback_device u16_bytes u32_bytes
            buffer index sequence
          ≡ ok m)
        × IsMessage u16_bytes u32_bytes u16_size u32_size
            (length buffer)
            32
            16
            5
            sequence
            (link_info u16_bytes u32_bytes index)
            m
  unfolding write_bring_up_loopback_device
  write_bring_up_loopback_device_lem buffer index sequence room next =
      let n = length buffer in
      let front = take 16 buffer in
      let info = link_info u16_bytes u32_bytes index in
      let sixteen : length front ≡ 16 = omega (arith, length-take 16 buffer, room) in
      let info_size = length-link_info index in
      let (first, h1) =
        write-Holds n front info (omega (arith, sixteen, info_size, room)) (buffer, 16)
          (record { offset = sym sixteen; beginning = refl; size = refl }) in
      let (m, last, good) =
        finish-IsMessage u16_bytes u32_bytes u16_size u32_size n 32 16 5 sequence front info
          (splice (buffer, 16) info) sixteen (omega (arith, info_size)) room next h1 in
      (m, rw first last, good)

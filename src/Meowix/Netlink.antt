-- ===== src/Meowix/Netlink.antt =====
-- Netlink messages: crates/meowix/src/netlink.rs. `u16_bytes` and `u32_bytes` are the bytes of a
-- number in the order of the machine. The values of the constants are those of the kernel's headers.
pub mod Ack
pub mod Finished
pub mod Built
pub mod Parsed
pub mod Setup
pub mod Leaves
pub mod Acked
pub mod Loopback
use layer_cake.Prelude.{
  ℕ, ◌+◌, ◌*◌, ◌/◌, ◌%◌, ◌^◌, Bytes, [], ◌∷◌, ◌++◌, take, drop, length, ltb, leb, Result, ok, err,
  ◌>>=◌, if◌then◌else◌,
}
use layer_cake.Meowix.Errors.{Netlink, buffer_too_small, integer_overflow}

-- A buffer and an offset in it.
abbrev pub Cursor : Type 0
Cursor = Bytes × ℕ

-- `write`, of a value of these bytes
unfoldable pub write : Cursor → Bytes → Result Cursor Netlink
write (buffer, offset) value =
    if leb (offset + length value) (length buffer)
    then ok
        (take offset buffer ++ value ++ drop (offset + length value) buffer, offset + length value)
    else err buffer_too_small

-- `write_bytes`
unfoldable pub write_bytes : Cursor → Bytes → Result Cursor Netlink
write_bytes (buffer, offset) bytes =
    if ltb (offset + length bytes) (2 ^ 64)
    then if leb (offset + length bytes) (length buffer)
      then ok (
        take offset buffer ++ bytes ++ drop (offset + length bytes) buffer,
        offset + length bytes,
      )
      else err buffer_too_small
    else err buffer_too_small

-- `checked_next_multiple_of(4)` of a `usize`
unfoldable pub next_multiple : ℕ → Result ℕ Netlink
next_multiple n =
    if ltb ((n + 3) / 4 * 4) (2 ^ 64) then ok ((n + 3) / 4 * 4) else err integer_overflow

-- `INADDR_LOOPBACK.to_be_bytes()`
abbrev pub loopback : Bytes
loopback = 127 ∷ 0 ∷ 0 ∷ 1 ∷ []

module _ (u16_bytes u32_bytes : ℕ → Bytes) where
  -- `rtattr`
  abbrev pub attribute : ℕ → ℕ → Bytes
  attribute size ty = u16_bytes (size % 2 ^ 16) ++ u16_bytes ty

  -- The alignment at the end of `write_attribute`.
  unfoldable pub align : Cursor → Result Cursor Netlink
  unfolding next_multiple
  align (buffer, offset) = do
    aligned ← next_multiple offset
    if ltb (length buffer) aligned then err buffer_too_small else ok (buffer, aligned)

  unfoldable pub write_attribute : Cursor → ℕ → Bytes → Result Cursor Netlink
  unfolding write write_bytes align
  write_attribute b ty payload = do
    b1 ← write b (attribute (4 + length payload) ty)
    b2 ← write_bytes b1 payload
    align b2

  -- `nlmsghdr`
  abbrev pub header : ℕ → ℕ → ℕ → ℕ → Bytes
  header size ty flags sequence =
      u32_bytes (size % 2 ^ 32)
      ++ u16_bytes ty
      ++ u16_bytes flags
      ++ u32_bytes sequence
      ++ u32_bytes 0

  -- A message, with the buffer that it stands in, its sequence number and the next one.
  pub record Message : Type 0 where
    pub buffer : Bytes
    pub sequence : ℕ
    pub next : ℕ
    pub message : Bytes

  -- The increment of the sequence number, and the part of the buffer that is the message.
  unfoldable pub finished : ℕ → ℕ → Bytes → Result Message Netlink
  finished size sequence buffer =
      if ltb (sequence + 1) (2 ^ 32)
      then if leb size (length buffer)
        then ok (record {
          buffer = buffer;
          sequence = sequence;
          next = sequence + 1;
          message = take size buffer;
        })
        else err buffer_too_small
      else err integer_overflow

  unfoldable pub finish_netlink_message : Cursor → ℕ → ℕ → ℕ → Result Message Netlink
  unfolding write finished
  finish_netlink_message (buffer, size) ty flags sequence = do
    b ← write (buffer, 0) (header size ty flags sequence)
    finished size sequence b.0

  -- `ifaddrmsg`: `AF_INET`, a prefix of 8, `IFA_F_PERMANENT` and `RT_SCOPE_HOST`
  abbrev pub address_info : ℕ → Bytes
  address_info index = (2 ∷ 8 ∷ 128 ∷ 254 ∷ []) ++ u32_bytes index

  -- The attributes are `IFA_LOCAL` and `IFA_ADDRESS`, the type is `RTM_NEWADDR`, and the flags are
  -- `NLM_F_REQUEST`, `NLM_F_CREATE`, `NLM_F_EXCL` and `NLM_F_ACK`.
  unfoldable pub write_add_loopback_address : Bytes → ℕ → ℕ → Result Message Netlink
  unfolding write write_attribute finish_netlink_message
  write_add_loopback_address buffer index sequence = do
    b1 ← write (buffer, 16) (address_info index)
    b2 ← write_attribute b1 2 loopback
    b3 ← write_attribute b2 1 loopback
    finish_netlink_message b3 20 0x605 sequence

  -- `ifinfomsg`: `AF_UNSPEC`, the index, and `IFF_UP` as flags and change
  abbrev pub link_info : ℕ → Bytes
  link_info index = (0 ∷ 0 ∷ []) ++ u16_bytes 0 ++ u32_bytes index ++ u32_bytes 1 ++ u32_bytes 1

  -- The type is `RTM_NEWLINK`, and the flags are `NLM_F_REQUEST` and `NLM_F_ACK`.
  unfoldable pub write_bring_up_loopback_device : Bytes → ℕ → ℕ → Result Message Netlink
  unfolding write finish_netlink_message
  write_bring_up_loopback_device buffer index sequence = do
    b ← write (buffer, 16) (link_info index)
    finish_netlink_message b 16 5 sequence

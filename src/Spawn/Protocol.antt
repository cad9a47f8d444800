-- ===== src/Spawn/Protocol.antt =====
-- The guest and the host after the clone, and the pipe between them: `clone_into` and
-- `host_post_clone` of crates/bubblebox/src/platform/linux/spawn/mod.rs. `encode` and `decode` are
-- the casts of the crate bytemuck between a message and its bytes.
pub mod Sent
pub mod Verdict
use layer_cake.Prelude.{
  ℕ, Bytes, Option, none, some, Result, ok, err, ◌==◌, ◌&&◌, Bool, true, false, if◌then◌else◌,
}
use layer_cake.Prelude.Int.{ℤ}
use layer_cake.Meowix.Act.{
  Outcome, done, failed, stuck, Act, Call, ◌>>=◌, ◌>>◌, pure, fail, wrap_error,
}
use layer_cake.Meowix.Errors.{SyscallError}
use layer_cake.Meowix.Io.{PartialTransfer, read_array, write_all}
use layer_cake.Spawn.Wire.{PostSpawnGuest, PostSpawnGuestWire, to_wire, from_wire}

-- `SpawnAction`, without what the calls of the action take
pub data SpawnAction : Type 0 where
  exit : ℤ → SpawnAction
  exec supervisor : SpawnAction

-- How the guest ends: after an error that it has sent, by an exit, or with a new program in its
-- place. After an error and as a supervisor it exits with -1.
pub data GuestEnd : Type 0 where
  setup_failed exec_failed : PostSpawnGuest → GuestEnd
  exited : ℤ → GuestEnd
  executed supervised : GuestEnd

-- The errors of the host after the clone, of which `HookError` is that of the cgroups backend.
pub data HostError (HookError : Type 0) : Type 0 where
  hook_error : HookError → HostError HookError
  guest_error : PostSpawnGuest → HostError HookError
  partial_transfer : PartialTransfer → HostError HookError

-- `size_of::<PostSpawnGuestWire>()`
abbrev pub wire_size : ℕ
wire_size = 6

module _ {S : Type 0} (encode : PostSpawnGuestWire → Bytes) (write : Bytes → Call S ℕ)
    (fuel : ℕ) where
  -- `let _ = guest_pipe.write_all(…)`, where only the end of the code matters.
  unfoldable pub send :
      Result (Unit {0}) PostSpawnGuest
      → S
      → (S → Outcome GuestEnd (Unit {0}) × S)
      → Outcome GuestEnd (Unit {0}) × S
  unfolding write_all to_wire
  send message s next =
      let r = write_all write fuel (encode (to_wire message)) s in
      (elim r.0 [ stuck ↦ (stuck, r.1) | _ ↦ next r.1 ])

  -- The `match` on the action. `exec_steps` are the steps of `SpawnAction::Exec` from the policy of
  -- the file descriptors to execveat, which only returns with an error.
  abbrev pub after_exec : Outcome (Unit {0}) PostSpawnGuest → S → Outcome GuestEnd (Unit {0}) × S
  after_exec (done _) s = (done executed, s)
  after_exec (failed e) s = send (err e) s (λ t. (done (exec_failed e), t))
  after_exec stuck s = (stuck, s)

  abbrev pub act :
      Act S PostSpawnGuest (Unit {0}) → SpawnAction → S → Outcome GuestEnd (Unit {0}) × S
  act exec_steps (exit code) s = (done (exited code), s)
  act exec_steps exec s = let r = exec_steps s in after_exec r.0 r.1
  act exec_steps supervisor s = (done supervised, s)

  -- The `match` on what `guest_post_clone` returns.
  abbrev pub after_setup :
      Act S PostSpawnGuest (Unit {0})
      → Outcome SpawnAction PostSpawnGuest
      → S
      → Outcome GuestEnd (Unit {0}) × S
  after_setup exec_steps (done action) s = send (ok tt) s (act exec_steps action)
  after_setup exec_steps (failed e) s = send (err e) s (λ t. (done (setup_failed e), t))
  after_setup exec_steps stuck s = (stuck, s)

  -- The guest's part of `clone_into`; `setup` is `guest_post_clone`.
  unfoldable pub guest_process :
      Act S PostSpawnGuest SpawnAction → Act S PostSpawnGuest (Unit {0}) → Act S (Unit {0}) GuestEnd
  unfolding send
  guest_process setup exec_steps s = let r = setup s in after_setup exec_steps r.0 r.1

abbrev pub Host : Type 0 → Type 0 → Type 0 → Type 0
Host S HookError A = Act S (HostError HookError) A

-- `Into<Result<(), PostSpawnGuest>>` and `?`
abbrev pub check_message :
    {S HookError : Type 0} → Result (Unit {0}) PostSpawnGuest → Host S HookError (Unit {0})
check_message (ok _) = pure tt
check_message (err e) = fail (guest_error e)

-- What is read after the success of the setup: the end of the pipe is the success of the exec.
abbrev is_none : Option SyscallError → Bool
is_none none = true
is_none (some e) = false

abbrev pub is_end : PartialTransfer → Bool
is_end p = (p.transferred == 0) && is_none p.error

unfoldable pub check_exec :
    {S HookError : Type 0}
    → (Bytes → PostSpawnGuestWire)
    → Outcome Bytes PartialTransfer
    → Host S HookError (Unit {0})
unfolding from_wire
check_exec decode (done bs) s = check_message (from_wire (decode bs)) s
check_exec decode (failed p) s = if is_end p then (done tt, s) else (failed (partial_transfer p), s)
check_exec decode stuck s = (stuck, s)

module _ {S HookError : Type 0} (decode : Bytes → PostSpawnGuestWire) (read : ℕ → Call S Bytes)
    (fuel : ℕ) where
  abbrev pub read_exec : Host S HookError (Unit {0})
  read_exec s = let r = read_array read fuel wire_size s in check_exec decode r.0 r.1

  -- `host_post_clone`
  unfoldable pub host_post_clone : Act S HookError (Unit {0}) → Host S HookError (Unit {0})
  unfolding read_array from_wire check_exec
  host_post_clone hook = do
    wrap_error hook_error hook
    bs ← wrap_error partial_transfer (read_array read fuel wire_size)
    check_message (from_wire (decode bs))
    read_exec

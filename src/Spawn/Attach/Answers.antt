-- ===== src/Spawn/Attach/Answers.antt =====
-- What the calls and the tests of the loop of `guest_post_clone` in
-- crates/bubblebox/src/platform/linux/spawn/mod.rs tell when they let it go on.
use layer_cake.Prelude.{
  ℕ, ◌+◌, ◌≡◌, refl, Bool, true, false, Bool-cases, inl, inr, Bytes, length, ◌==◌, Result, ok, err,
  arith, ◌>>◌, ltb, guard,
}
use layer_cake.Meowix.Errors.{SyscallError}
use layer_cake.Meowix.Act.{Act, Call}
use layer_cake.Meowix.Gives.{call, ◌>>=◌, Gives, lift, pure-Gives, fail-Gives, weaken-Gives}
use layer_cake.Paths.Guest.{
  has_no_null, WithCStrError, GuestInner, path_max, joined, guest_with_c_str,
}
use layer_cake.Meowix.Netlink.Leaves.{Leaves-Post, weaken-Leaves, call-Leaves, bind-Leaves}
use layer_cake.Spawn.Wire.{PostSpawnGuest, PostSpawnGuestOther}
use layer_cake.Spawn.Fmt.{convert}
use layer_cake.Spawn.Attach.{is_noent, file_type, ensure_point, ensure_absent}

-- What statx has told of a mount point that is used, which has been made where nothing was.
abbrev pub FitsPoint : ℕ → Type 0 → Result ℕ SyscallError → Type 0
FitsPoint type IsMade (ok mode) = file_type mode ≡ type
FitsPoint type IsMade (err e) = (is_noent e ≡ true) × IsMade

abbrev pub IsAbsent : Result ℕ SyscallError → Type 0
IsAbsent (ok mode) = ⊥
IsAbsent (err e) = is_noent e ≡ true

module _ {S : Type 0} where
  pub ensure_point-FitsPoint :
      (type : ℕ) (wrong : PostSpawnGuestOther) (create : Act S PostSpawnGuest (Unit {0}))
      (r : Result ℕ SyscallError) (IsMade : Type 0)
      → Gives (λ _. IsMade) create
      → Gives (λ _. FitsPoint type IsMade r) (ensure_point type wrong create r)
  unfolding ensure_point
  ensure_point-FitsPoint type wrong create (ok mode) IsMade h =
      elim (Bool-cases (file_type mode == type)) [
        | inl e ↦ rw e (pure-Gives _ _ (ground (arith, e)))
        | inr e ↦ rw e (fail-Gives _ _)
      ]
  ensure_point-FitsPoint type wrong create (err x) IsMade h = elim (Bool-cases (is_noent x)) [
    | inl e ↦ rw e (weaken-Gives (λ _. IsMade) _ _ h (λ _ made. (refl, made)))
    | inr e ↦ rw e (fail-Gives _ _)
  ]

  pub ensure_absent-IsAbsent :
      (r : Result ℕ SyscallError) → Gives {S = S} (λ _. IsAbsent r) (ensure_absent r)
  unfolding ensure_absent
  ensure_absent-IsAbsent (ok mode) = fail-Gives _ _
  ensure_absent-IsAbsent (err x) = elim (Bool-cases (is_noent x)) [
    | inl e ↦ rw e (pure-Gives _ _ refl)
    | inr e ↦ rw e (fail-Gives _ _)
  ]

guarded :
    {S : Type 0} (a b : Bool) (e f : WithCStrError) (value : Bytes)
    → Gives {S = S} {E = PostSpawnGuest}
        (λ target. target ≡ value)
        (lift (convert (do guard a e; guard b f; ok value)))
unfolding lift
guarded true true e f value = record { at = λ s. refl }
guarded true false e f value = record { at = λ s. tt }
guarded false b e f value = record { at = λ s. tt }

-- The target of a symbolic link is the whole path.
pub target-joined :
    {S : Type 0} (source : GuestInner)
    → Gives {S = S} {E = PostSpawnGuest}
        (λ target. target ≡ joined source)
        (lift (convert (guest_with_c_str path_max source ok)))
unfolding guest_with_c_str
target-joined source =
    guarded (ltb (length source.parent_dir + length source.file_name + 1) path_max)
      (has_no_null (joined source)) WithCStrError.c_str_buffer_too_small
      WithCStrError.from_bytes_with_nul_error (joined source)

-- Three calls have succeeded, each from the state that the one before it left.
abbrev pub InTurn : {S : Type 0} → (a b c : Call S (Unit {0})) → Type 0
InTurn {S} a b c = (s t u v : S) × (a s ≡ (ok tt, t)) × (b t ≡ (ok tt, u)) × (c u ≡ (ok tt, v))

module _ {S E : Type 0} (f : SyscallError → E) where
  pub calls-InTurn :
      (a b c : Call S (Unit {0}))
      → Gives (λ _. InTurn a b c) (call f a >>= λ _. call f b >>= λ _. call f c)
  calls-InTurn a b c = record {
    at = λ s.
        Leaves-Post (λ _. InTurn a b c) _
          (bind-Leaves (λ x t. a s ≡ (ok x, t)) (λ _ _. InTurn a b c) _ _ s (call-Leaves f a s)
            (λ _ t first.
              bind-Leaves (λ x u. b t ≡ (ok x, u)) (λ _ _. InTurn a b c) _ _ t (call-Leaves f b t)
                (λ _ u second.
                  weaken-Leaves (λ x v. c u ≡ (ok x, v)) (λ _ _. InTurn a b c) _ (call-Leaves f c u)
                    (λ _ v third. (s, t, u, v, first, second, third)))));
  }

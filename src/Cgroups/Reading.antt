-- ===== src/Cgroups/Reading.antt =====
-- `parse_controllers` of crates/bubblebox/src/platform/linux/cgroups/policy.rs comes to an end, with
-- controllers that have been read.
use layer_cake.Prelude.{
  ℕ, ◌<◌, ◌≡◌, refl, Bool, true, Bytes, List, [], ◌∷◌, ◌==◌, Bool-cases, inl, inr, Result, ok, err,
}
use layer_cake.Prelude.Text.{codes}
use layer_cake.Meowix.Errors.{SyscallError, intr}
use layer_cake.Meowix.Flags.{o_cloexec, resolve_beneath, resolve_no_magiclinks, resolve_no_symlinks}
use layer_cake.Meowix.Answers.{Answered}
use layer_cake.Meowix.Act.{Outcome, done, failed, stuck, Act, is_intr, map_failure, wrap_error}
use layer_cake.Meowix.Turns.{After, turns_inv}
use layer_cake.Meowix.Io.{with_spare, after_read_uninit, read_to_end, read_to_end_turn}
use layer_cake.Meowix.Gives.{
  Post, Any, Gives, bind-Gives, pure-Gives, fail-Gives, if-Gives, then-Gives,
}
use layer_cake.Meowix.Files.{FileKernel, Settles, opened-Gives, and_drop-Gives}
use layer_cake.Cgroups.Policy.{CgroupKernel, read_string, parse_controllers}
use layer_cake.Cgroups.Tokens.{Found, see_all-Found}

-- Code has had this value.
abbrev pub Returned : {S E A : Type 0} → Act S E A → A → Type 0
Returned {S} m a = (s : S) × ((m s).0 ≡ done a)

module _ {S E A : Type 0} where
  Returned-Post :
      (m : Act S E A) (s : S) (o : Outcome A E) → (m s).0 ≡ o → Post Any o → Post (Returned m) o
  Returned-Post m s (done a) e h = (s, e)
  Returned-Post m s (failed x) e h = tt
  Returned-Post m s stuck e h = h

  Gives-Returned : (m : Act S E A) → Gives Any m → Gives (Returned m) m
  Gives-Returned m h = record { at = λ s. Returned-Post m s (m s).0 refl (h.at s) }

module _ {E F A : Type 0} where
  wrapped-Post :
      (f : E → F) (Q : A → Type 0) (o : Outcome A E) → Post Q o → Post Q (map_failure f o)
  wrapped-Post f Q (done a) h = h
  wrapped-Post f Q (failed e) h = tt
  wrapped-Post f Q stuck h = h

  wrap_error-Gives :
      {S : Type 0} (f : E → F) (Q : A → Type 0) (m : Act S E A)
      → Gives Q m
      → Gives Q (wrap_error f m)
  wrap_error-Gives f Q m h = record { at = λ s. wrapped-Post f Q (m s).0 (h.at s) }

-- Interrupted reads and reads that answer bytes lower the measure too.
pub record ReadsSettle (kernel : CgroupKernel) (fuel : ℕ)
    (k : Settles (CgroupKernel.files kernel) fuel) : Type 0 where
  pub read_falls :
      (fd size : ℕ) (s : FileKernel.State (CgroupKernel.files kernel))
      → is_intr (CgroupKernel.read_uninit kernel fd size s).0 ≡ true
      → k.pending (CgroupKernel.read_uninit kernel fd size s).1 < k.pending s
  pub bytes_fall :
      (fd size : ℕ) (s : FileKernel.State (CgroupKernel.files kernel)) (b : ℕ) (bs : Bytes)
      → (CgroupKernel.read_uninit kernel fd size s).0 ≡ ok (b ∷ bs)
      → k.pending (CgroupKernel.read_uninit kernel fd size s).1 < k.pending s

module _ {S : Type 0} (pending : S → ℕ) where
  to_end_step :
      (y : Bytes × ℕ) (r : Result Bytes SyscallError) (t : S) (bound : ℕ)
      → (is_intr r ≡ true → pending t < bound)
      → ((b : ℕ) (bs : Bytes) → r ≡ ok (b ∷ bs) → pending t < bound)
      → After
          (λ _ _. Unit {0})
          (λ o _. Post Any o)
          (λ _ t. pending t)
          bound
          (after_read_uninit y r)
          t
  to_end_step (buf, spare) (ok []) t bound hi hb = tt
  to_end_step (buf, spare) (ok (b ∷ bs)) t bound hi hb = (tt, hb b bs refl)
  to_end_step (buf, spare) (err e) t bound hi hb =
      elim (Bool-cases (e.error.encoded == intr.encoded)) [
        | inl z ↦ rw z (tt, hi z)
        | inr z ↦ rw z tt
      ]

module _ (kernel : CgroupKernel) (fuel : ℕ) (reserve : Bytes → ℕ → ℕ) (is_utf8 : Bytes → Bool)
    (split_whitespace : Bytes → List Bytes) (k : Settles (CgroupKernel.files kernel) fuel)
    (r : ReadsSettle kernel fuel k) where
  open kernel use {files, read_uninit}
  open files use {State, openat2}

  read_to_end_ends :
      (fd : ℕ) (x : Bytes × ℕ) → Gives Any (read_to_end reserve (read_uninit fd) fuel x)
  unfolding read_to_end
  read_to_end_ends fd x = record {
    at = λ s.
        turns_inv (λ _ _. Unit) (λ o _. Post Any o) (λ _ t. k.pending t)
          (read_to_end_turn reserve (read_uninit fd))
          (λ y t _.
            let z = with_spare reserve y in
            to_end_step k.pending z _ _ (k.pending t) (r.read_falls fd z.1 t)
              (r.bytes_fall fd z.1 t))
          fuel x s tt (k.enough s);
  }

  read_string_ends :
      (fd : ℕ) → Gives Any (read_string kernel fuel reserve is_utf8 split_whitespace fd)
  unfolding read_string
  read_string_ends fd =
      then-Gives _ _ _ (wrap_error-Gives _ _ _ (read_to_end_ends fd ([], 0)))
        (λ text. if-Gives _ (is_utf8 text) _ _ (pure-Gives _ _ tt) (fail-Gives _ _))

  -- A text that `cgroup.controllers` has been read with.
  abbrev pub Listed : ℕ → Bytes → Type 0
  Listed dir text =
      (fd : ℕ) × Answered
        (openat2 dir (codes "cgroup.controllers") (o_cloexec ∷ [])
          (resolve_beneath ∷ resolve_no_magiclinks ∷ resolve_no_symlinks ∷ []))
        fd
      × Returned (read_string kernel fuel reserve is_utf8 split_whitespace fd) text

  pub parse_controllers-Found :
      (dir : ℕ)
      → Gives
          (λ c. (text : Bytes) × Listed dir text × Found c (split_whitespace text))
          (parse_controllers kernel fuel reserve is_utf8 split_whitespace dir)
  unfolding parse_controllers
  parse_controllers-Found dir = bind-Gives _ _ _ _ (opened-Gives files _ fuel k dir _ _ _) (λ fd a.
      and_drop-Gives files _ fd _ (
        bind-Gives _ _ _ _ (wrap_error-Gives _ _ _ (Gives-Returned _ (read_string_ends fd)))
          (λ text t. pure-Gives _ _ (text, (fd, a, t), see_all-Found (split_whitespace text)))))

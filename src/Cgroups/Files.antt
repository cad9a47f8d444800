-- ===== src/Cgroups/Files.antt =====
-- The interface files of a cgroup: `open_beneath_and_write!` as
-- crates/bubblebox/src/platform/linux/cgroups/policy.rs uses it.
use layer_cake.Prelude.{ℕ, Bool, true, false, Bytes, List, [], ◌∷◌, All, Option, none, some, ok}
use layer_cake.Meowix.Act.{Act}
use layer_cake.Meowix.Gives.{Gives, ◌>>◌, pure, bind-Gives, weaken-Gives, pure-Gives}
use layer_cake.Meowix.Files.{
  FileKernel, Settles, WroteBeneath, open_beneath_and_write, open_beneath_and_write-WroteBeneath,
}
use layer_cake.Cgroups.Errors.{Host, syscall, incomplete_write}

module _ (files : FileKernel) (fuel : ℕ) where
  open files use {State}

  abbrev pub OnHost : Type 0 → Type 0
  OnHost A = Act State Host A

  abbrev pub put : ℕ → Bytes → Bytes → OnHost (Unit {0})
  put dir path text = open_beneath_and_write files syscall incomplete_write fuel dir path (ok text)

  -- `if b { … }`
  unfoldable pub when : Bool → OnHost (Unit {0}) → OnHost (Unit {0})
  when true m = m
  when false m = pure tt

  -- `if let Some(a) = o { … }`
  unfoldable pub if_some : {A : Type 0} → Option A → (A → OnHost (Unit {0})) → OnHost (Unit {0})
  if_some none f = pure tt
  if_some (some a) f = f a

-- The files that are to be written, with their texts.
abbrev pub Files : Type 0
Files = List (Bytes × Bytes)

abbrev pub flagged : Bool → Bytes × Bytes → Files → Files
flagged true file rest = file ∷ rest
flagged false file rest = rest

abbrev pub given : {A : Type 0} → Option A → (A → Bytes × Bytes) → Files → Files
given none file rest = rest
given (some a) file rest = file a ∷ rest

module _ (files : FileKernel) (fuel : ℕ) (k : Settles files fuel) where
  -- Each of the files below the directory has taken its text.
  abbrev pub Wrote : ℕ → Files → Type 0
  Wrote dir plan = All (λ file. WroteBeneath files dir file.0 file.1) plan

  pub put-Wrote :
      (dir : ℕ) (file : Bytes × Bytes)
      → Gives (λ _. WroteBeneath files dir file.0 file.1) (put files fuel dir file.0 file.1)
  put-Wrote dir file =
      open_beneath_and_write-WroteBeneath files syscall incomplete_write fuel k dir _ _

  pub when-Wrote :
      (dir : ℕ) (b : Bool) (file : Bytes × Bytes) (rest : Files) (m : OnHost files fuel (Unit {0}))
      → Gives (λ _. Wrote dir rest) m
      → Gives
          (λ _. Wrote dir (flagged b file rest))
          (when files fuel b (put files fuel dir file.0 file.1) >> m)
  unfolding when
  when-Wrote dir true file rest m h =
      bind-Gives _ _ _ _ (put-Wrote dir file) (λ _ w. weaken-Gives _ _ _ h (λ _ ws. (w, ws)))
  when-Wrote dir false file rest m h =
      bind-Gives _ _ _ _ (pure-Gives _ _ tt) (λ _ (_ : Unit {0}). h)

  pub if_some-Wrote :
      {A : Type 0} (dir : ℕ) (o : Option A) (f : A → OnHost files fuel (Unit {0}))
      (file : A → Bytes × Bytes) (rest : Files) (m : OnHost files fuel (Unit {0}))
      → ((a : A) → Gives (λ _. WroteBeneath files dir (file a).0 (file a).1) (f a))
      → Gives (λ _. Wrote dir rest) m
      → Gives (λ _. Wrote dir (given o file rest)) (if_some files fuel o f >> m)
  unfolding if_some
  if_some-Wrote dir none f file rest m hf h =
      bind-Gives _ _ _ _ (pure-Gives _ _ tt) (λ _ (_ : Unit {0}). h)
  if_some-Wrote dir (some a) f file rest m hf h =
      bind-Gives _ _ _ _ (hf a) (λ _ w. weaken-Gives _ _ _ h (λ _ ws. (w, ws)))

  pub nothing-Wrote :
      (dir : ℕ) → Gives (λ _. Wrote dir []) (pure {S = FileKernel.State files} {E = Host} tt)
  nothing-Wrote dir = pure-Gives _ _ tt

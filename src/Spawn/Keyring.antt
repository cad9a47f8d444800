-- ===== src/Spawn/Keyring.antt =====
-- The keyring of the guest: crates/bubblebox/src/platform/linux/spawn/keyring.rs. The calls of
-- keyctl are parameters.
use layer_cake.Prelude.{ℕ}
use layer_cake.Meowix.Act.{Act, Call}
use layer_cake.Meowix.Gives.{Gives, ◌>>=◌, pure, call, bind-Gives, pure-Gives}
use layer_cake.Meowix.Answers.{Answered, call-Answered}
use layer_cake.Spawn.Wire.{PostSpawnGuest, syscall}
use layer_cake.Policy.{Keyring, inherit_authority, inherit, reset}

pub record KeyringKernel : Type 1 where
  pub State : Type 0
  pub keyctl_assume_authority : ℕ → Call State ℕ
  -- with no name
  pub keyctl_join_session_keyring : Call State ℕ
  pub keyctl_set_reqkey_keyring : ℕ → Call State ℕ

-- `KEY_REQKEY_DEFL_SESSION_KEYRING`
abbrev session_keyring : ℕ
session_keyring = 3

module _ (kernel : KeyringKernel) where
  open kernel use {
    State, keyctl_assume_authority, keyctl_join_session_keyring, keyctl_set_reqkey_keyring,
  }

  unfoldable pub apply_keyring_policy : Keyring → Act State PostSpawnGuest (Unit {0})
  apply_keyring_policy inherit_authority = pure tt
  apply_keyring_policy inherit = do previous ← call syscall (keyctl_assume_authority 0); pure tt
  apply_keyring_policy reset = do
    previous ← call syscall (keyctl_assume_authority 0)
    keyring ← call syscall keyctl_join_session_keyring
    default ← call syscall (keyctl_set_reqkey_keyring session_keyring)
    pure tt

  -- The authority that the policy does not keep is given up, and a keyring that it does not keep
  -- is replaced, also as the destination of keys that are requested.
  abbrev pub Restricted : Keyring → Type 0
  Restricted inherit_authority = Unit
  Restricted inherit = (n : ℕ) × Answered (keyctl_assume_authority 0) n
  Restricted reset =
      ((n : ℕ) × Answered (keyctl_assume_authority 0) n)
      × ((n : ℕ) × Answered keyctl_join_session_keyring n)
      × ((n : ℕ) × Answered (keyctl_set_reqkey_keyring session_keyring) n)

  -- `apply_keyring_policy` comes to an end. If it succeeds, it has given up the authority of the
  -- caller unless the policy keeps it, and for a reset it has also joined a new session keyring and
  -- made the session keyring the destination of keys that are requested.
  pub apply_keyring_policy-Restricted :
      (policy : Keyring) → Gives (λ _. Restricted policy) (apply_keyring_policy policy)
  unfolding apply_keyring_policy
  apply_keyring_policy-Restricted inherit_authority = pure-Gives _ _ tt
  apply_keyring_policy-Restricted inherit =
      bind-Gives _ _ _ _ (call-Answered _ _) (λ n a. pure-Gives _ _ (n, a))
  apply_keyring_policy-Restricted reset = bind-Gives _ _ _ _ (call-Answered _ _) (λ n a.
      bind-Gives _ _ _ _ (call-Answered _ _) (λ m b.
        bind-Gives _ _ _ _ (call-Answered _ _) (λ l c. pure-Gives _ _ ((n, a), (m, b), (l, c)))))

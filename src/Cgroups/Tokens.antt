-- ===== src/Cgroups/Tokens.antt =====
-- The controllers that `parse_controllers` of
-- crates/bubblebox/src/platform/linux/cgroups/policy.rs finds have been read.
use mathlib.Core.List.{Memᴰ}
use mathlib.Core.List.Memᴰ.{head, tail}
use layer_cake.Prelude.{
  ◌≡◌, sym, ◌⊎◌, inl, inr, Bool, true, false, Bool-cases, Bytes, List, [], ◌∷◌, bytes_eq,
  bytes_eq_iff,
}
use layer_cake.Prelude.Text.{codes}
use layer_cake.Cgroups.Policy.{CgroupControllers, no_controllers, see, see_all}

-- How a name changes the controllers.
data Seen (c : CgroupControllers) (name : Bytes) : CgroupControllers → Type 0 where
  cpu : name ≡ codes "cpu" → Seen c name (record c { cpu = true })
  memory : name ≡ codes "memory" → Seen c name (record c { memory = true })
  io : name ≡ codes "io" → Seen c name (record c { io = true })
  pids : name ≡ codes "pids" → Seen c name (record c { pids = true })
  other : Seen c name c

see-Seen : (c : CgroupControllers) (name : Bytes) → Seen c name (see c name)
unfolding see
see-Seen c name = elim (Bool-cases (bytes_eq name (codes "cpu"))) [
  | inl e ↦ rw e (cpu ((bytes_eq_iff name (codes "cpu")).0 e))
  | inr e1 ↦ elim (Bool-cases (bytes_eq name (codes "memory"))) [
    | inl e ↦ rw (e1, e) (memory ((bytes_eq_iff name (codes "memory")).0 e))
    | inr e2 ↦ elim (Bool-cases (bytes_eq name (codes "io"))) [
      | inl e ↦ rw (e1, e2, e) (io ((bytes_eq_iff name (codes "io")).0 e))
      | inr e3 ↦ elim (Bool-cases (bytes_eq name (codes "pids"))) [
        | inl e ↦ rw (e1, e2, e3, e) (pids ((bytes_eq_iff name (codes "pids")).0 e))
        | inr e ↦ rw (e1, e2, e3, e) other
      ]
    ]
  ]
]

-- Each controller that is found is one of the names.
pub record Found (c : CgroupControllers) (names : List Bytes) : Type 0 where
  pub cpu : c.cpu ≡ true → Memᴰ (codes "cpu") names
  pub memory : c.memory ≡ true → Memᴰ (codes "memory") names
  pub io : c.io ≡ true → Memᴰ (codes "io") names
  pub pids : c.pids ≡ true → Memᴰ (codes "pids") names

module _ (field : CgroupControllers → Bool) (key : Bytes)
    (step : (c : CgroupControllers) (name : Bytes) (c' : CgroupControllers)
      → Seen c name c'
      → field c' ≡ true
      → (field c ≡ true) ⊎ (key ≡ name)) where
  see_all-mem :
      (names : List Bytes) (c : CgroupControllers)
      → field (see_all c names) ≡ true
      → (field c ≡ true) ⊎ Memᴰ key names
  unfolding see_all
  see_all-mem [] c h = inl h
  see_all-mem (name ∷ names) c h = elim (see_all-mem names (see c name) h) [
    | inl e ↦ elim (step c name (see c name) (see-Seen c name) e) [
      | inl k ↦ inl k
      | inr k ↦ inr (head k)
    ]
    | inr m ↦ inr (tail m)
  ]

cpu_step :
    (c : CgroupControllers) (name : Bytes) (c' : CgroupControllers)
    → Seen c name c'
    → c'.cpu ≡ true
    → (c.cpu ≡ true) ⊎ (codes "cpu" ≡ name)
cpu_step c name _ (cpu e) h = inr (sym e)
cpu_step c name _ (memory e) h = inl h
cpu_step c name _ (io e) h = inl h
cpu_step c name _ (pids e) h = inl h
cpu_step c name _ other h = inl h

memory_step :
    (c : CgroupControllers) (name : Bytes) (c' : CgroupControllers)
    → Seen c name c'
    → c'.memory ≡ true
    → (c.memory ≡ true) ⊎ (codes "memory" ≡ name)
memory_step c name _ (cpu e) h = inl h
memory_step c name _ (memory e) h = inr (sym e)
memory_step c name _ (io e) h = inl h
memory_step c name _ (pids e) h = inl h
memory_step c name _ other h = inl h

io_step :
    (c : CgroupControllers) (name : Bytes) (c' : CgroupControllers)
    → Seen c name c'
    → c'.io ≡ true
    → (c.io ≡ true) ⊎ (codes "io" ≡ name)
io_step c name _ (cpu e) h = inl h
io_step c name _ (memory e) h = inl h
io_step c name _ (io e) h = inr (sym e)
io_step c name _ (pids e) h = inl h
io_step c name _ other h = inl h

pids_step :
    (c : CgroupControllers) (name : Bytes) (c' : CgroupControllers)
    → Seen c name c'
    → c'.pids ≡ true
    → (c.pids ≡ true) ⊎ (codes "pids" ≡ name)
pids_step c name _ (cpu e) h = inl h
pids_step c name _ (memory e) h = inl h
pids_step c name _ (io e) h = inl h
pids_step c name _ (pids e) h = inr (sym e)
pids_step c name _ other h = inl h

newly : {A : Type 0} → (false ≡ true) ⊎ A → A
newly (inl e) = cc
newly (inr a) = a

-- A controller that is found when nothing has been found before is one of the names.
pub see_all-Found : (names : List Bytes) → Found (see_all no_controllers names) names
see_all-Found names = record {
  cpu = λ h. newly (see_all-mem (λ c. c.cpu) (codes "cpu") cpu_step names no_controllers h);
  memory =
      λ h. newly (see_all-mem (λ c. c.memory) (codes "memory") memory_step names no_controllers h);
  io = λ h. newly (see_all-mem (λ c. c.io) (codes "io") io_step names no_controllers h);
  pids = λ h. newly (see_all-mem (λ c. c.pids) (codes "pids") pids_step names no_controllers h);
}

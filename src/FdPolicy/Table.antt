-- ===== src/FdPolicy/Table.antt =====
-- What the file descriptor policy makes of a table of file descriptors, where every call of
-- `apply_file_descriptor_policy` is done: once call by call, and once as a plan for each number.
use layer_cake.Prelude.{
  ℕ, suc, ◌-◌, ◌^◌, ◌<◌, ◌≤◌, ◌≡◌, ◌≢◌, refl, ap, sym, ◌∙◌, Bool, true, false, ◌&&◌, Option, none,
  some, [], ◌∷◌, ltb, leb, ◌==◌, if◌then◌else◌, Bool-cases, inl, inr, ◌⊎◌, arith,
}
use layer_cake.Prelude.Int.{pos, negsuc, cmp}
use layer_cake.SortedMap.{lookup}
use layer_cake.FdPolicy.{RawFd, Action, ignore, map, Policy}
use layer_cake.FdPolicy.Kernel.{uint_max, FdEntry, Table, with_flag, put, mark}

-- The keys rise strictly from `start`, and are `i32`s that are not negative.
abbrev pub Rising : ℕ → Policy → Type 0
Rising start [] = Unit
Rising start ((pos n, a) ∷ rest) = (start ≤ n) × (n < 2 ^ 31) × Rising (suc n) rest
Rising start ((negsuc n, a) ∷ rest) = ⊥

-- No number that is mapped is the source of a later entry.
abbrev pub Separate : Policy → Type 0
Separate [] = Unit
Separate ((fd, ignore) ∷ rest) = Separate rest
Separate ((fd, map source) ∷ rest) =
    ((k src : ℕ) → lookup cmp (pos k) rest ≡ some (map src) → pos src ≢ fd) × Separate rest

abbrev pub act : ℕ → ℕ → Action → Table → Table
act pipe n ignore t = t
act pipe n (map source) t = if pipe == n then t else put n (with_flag false (t source)) t

abbrev pub between : ℕ → ℕ → Table → Table
between start n t = if ltb start n then mark start (n - 1) t else t

-- The calls one after the other.
unfoldable pub marked : ℕ → Policy → ℕ → Table → Table
marked pipe [] start t = mark start uint_max t
marked pipe ((pos n, a) ∷ rest) start t =
    marked pipe rest (suc n) (between start n (act pipe n a t))
marked pipe ((negsuc n, a) ∷ rest) start t = t

abbrev pub planned : ℕ → Table → ℕ → Option Action → Option FdEntry
planned pipe t k none = with_flag true (t k)
planned pipe t k (some ignore) = t k
planned pipe t k (some (map source)) = if pipe == k then t k else with_flag false (t source)

pub with_flag-twice :
    (b c : Bool) (e : Option FdEntry) → with_flag b (with_flag c e) ≡ with_flag b e
with_flag-twice b c none = refl
with_flag-twice b c (some e) = refl

-- One entry leaves the numbers before the gap and after its own alone, marks the gap, and acts on
-- its own.
step_below :
    (pipe start n : ℕ) (a : Action) (t : Table) (k : ℕ)
    → start ≤ n
    → k < start
    → between start n (act pipe n a t) k ≡ t k
step_below pipe start n ignore t k le h = ground arith
step_below pipe start n (map source) t k le h = ground arith

step_gap :
    (pipe start n : ℕ) (a : Action) (t : Table) (k : ℕ)
    → start ≤ k
    → k < n
    → between start n (act pipe n a t) k ≡ with_flag true (t k)
step_gap pipe start n ignore t k le h = ground arith
step_gap pipe start n (map source) t k le h = ground arith

step_above :
    (pipe start n : ℕ) (a : Action) (t : Table) (k : ℕ)
    → n < k
    → between start n (act pipe n a t) k ≡ t k
step_above pipe start n ignore t k h = ground arith
step_above pipe start n (map source) t k h = ground arith

step_at :
    (pipe start n : ℕ) (a : Action) (t : Table) (k : ℕ)
    → k ≡ n
    → between start n (act pipe n a t) k ≡ planned pipe t k (some a)
step_at pipe start n ignore t k h = ground arith
step_at pipe start n (map source) t k h = ground arith

-- A mapping of a later entry finds its source as it was, up to the flag.
step_source :
    (pipe start n : ℕ) (a : Action) (t : Table) (src : ℕ)
    → ((source : ℕ) → a ≡ map source → src ≢ n)
    → with_flag false (between start n (act pipe n a t) src) ≡ with_flag false (t src)
step_source pipe start n ignore t src sep =
    elim (Bool-cases (ltb start n && leb start src && leb src (n - 1))) [
      | inl e ↦ ground (arith, with_flag-twice false true (t src))
      | inr e ↦ ground arith
    ]
step_source pipe start n (map source) t src sep =
    ground (arith, with_flag-twice false true (t src), sep source refl)

planned-change :
    (pipe : ℕ) (t u : Table) (k : ℕ) (o : Option Action)
    → u k ≡ t k
    → ((src : ℕ) → o ≡ some (map src) → with_flag false (u src) ≡ with_flag false (t src))
    → planned pipe u k o ≡ planned pipe t k o
planned-change pipe t u k none e f = rw e
planned-change pipe t u k (some ignore) e f = e
planned-change pipe t u k (some (map source)) e f = ground (arith, f source refl)

Separate-at :
    (n : ℕ) (a : Action) (rest : Policy) (k src : ℕ)
    → Separate ((pos n, a) ∷ rest)
    → lookup cmp (pos k) rest ≡ some (map src)
    → (source : ℕ) → a ≡ map source
    → src ≢ n
Separate-at n ignore rest k src sep e source q = cc
Separate-at n (map _) rest k src sep e source q = λ same. sep.0 k src e (ap pos same)

Separate-rest :
    (fd : RawFd) (a : Action) (rest : Policy) → Separate ((fd, a) ∷ rest) → Separate rest
Separate-rest fd ignore rest sep = sep
Separate-rest fd (map source) rest sep = sep.1

step_planned :
    (pipe start n : ℕ) (a : Action) (t : Table) (rest : Policy) (k : ℕ)
    → n < k
    → Separate ((pos n, a) ∷ rest)
    → planned pipe (between start n (act pipe n a t)) k (lookup cmp (pos k) rest)
      ≡ planned pipe t k (lookup cmp (pos k) rest)
step_planned pipe start n a t rest k h sep =
    planned-change pipe t (between start n (act pipe n a t)) k (lookup cmp (pos k) rest)
      (step_above pipe start n a t k h)
      (λ src e. step_source pipe start n a t src (Separate-at n a rest k src sep e))

pub if-lt : (k s : ℕ) (x y : Option FdEntry) → k < s → (if ltb k s then x else y) ≡ x
if-lt k s x y h = ground arith

pub if-ge : (k s : ℕ) (x y : Option FdEntry) → s ≤ k → (if ltb k s then x else y) ≡ y
if-ge k s x y h = ground arith

pub four_ways : (k s n : ℕ) → s ≤ n → (k < s) ⊎ ((s ≤ k) × (k < n)) ⊎ (k ≡ n) ⊎ (n < k)
four_ways k s n h = ground arith

pub lookup-nothing : (k : ℕ) → lookup {V = Action} cmp (pos k) [] ≡ none
unfolding lookup
lookup-nothing k = refl

module _ (n k : ℕ) (a : Action) (rest : Policy) where
  pub lookup-before : k < n → lookup cmp (pos k) ((pos n, a) ∷ rest) ≡ none
  unfolding lookup cmp
  lookup-before h = ground arith

  pub lookup-here : k ≡ n → lookup cmp (pos k) ((pos n, a) ∷ rest) ≡ some a
  unfolding lookup cmp
  lookup-here h = ground arith

  pub lookup-after : n < k → lookup cmp (pos k) ((pos n, a) ∷ rest) ≡ lookup cmp (pos k) rest
  unfolding lookup cmp
  lookup-after h = ground arith

marked_step :
    (pipe n start : ℕ) (a : Action) (rest : Policy) (t : Table) (k : ℕ)
    → start ≤ n
    → Separate ((pos n, a) ∷ rest)
    → (v : Option FdEntry)
    → v ≡ (
        if ltb k (suc n)
        then between start n (act pipe n a t) k
        else planned pipe (between start n (act pipe n a t)) k (lookup cmp (pos k) rest))
    → v ≡ (if ltb k start then t k else planned pipe t k (lookup cmp (pos k) ((pos n, a) ∷ rest)))
marked_step pipe n start a rest t k r s v ih = elim (four_ways k start n r) [
  | inl below ↦
      earlier (omega arith) ∙ step_below pipe start n a t k r below ∙ sym (if-lt k start _ _ below)
  | inr (inl (le, gap)) ↦
      earlier (omega arith)
      ∙ step_gap pipe start n a t k le gap
      ∙ sym (if-ge k start _ _ le ∙ ap (planned pipe t k) (lookup-before n k a rest gap))
  | inr (inr (inl here)) ↦
      earlier (omega arith)
      ∙ step_at pipe start n a t k here
      ∙ sym (if-ge k start _ _ (omega arith) ∙ ap (planned pipe t k) (lookup-here n k a rest here))
  | inr (inr (inr after)) ↦
      ih
      ∙ if-ge k (suc n) _ _ (omega arith)
      ∙ step_planned pipe start n a t rest k after s
      ∙ sym
          (if-ge k start _ _ (omega arith) ∙ ap (planned pipe t k) (lookup-after n k a rest after))
]
  where
    earlier : k < suc n → v ≡ between start n (act pipe n a t) k
    earlier lt = ih ∙ if-lt k (suc n) _ _ lt

pub marked-planned :
    (pipe : ℕ) (l : Policy) (start : ℕ) (t : Table) (k : ℕ)
    → Rising start l
    → Separate l
    → k ≤ uint_max
    → marked pipe l start t k
      ≡ (if ltb k start then t k else planned pipe t k (lookup cmp (pos k) l))
unfolding marked
marked-planned pipe [] start t k r s h = ground (arith, lookup-nothing k)
marked-planned pipe ((negsuc n, a) ∷ rest) start t k r s h = absurd r
marked-planned pipe ((pos n, a) ∷ rest) start t k r s h =
    marked_step pipe n start a rest t k r.0 s
      (marked pipe rest (suc n) (between start n (act pipe n a t)) k)
      (marked-planned pipe rest (suc n) (between start n (act pipe n a t)) k r.2
        (Separate-rest (pos n) a rest s) h)

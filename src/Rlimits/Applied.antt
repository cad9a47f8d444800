-- ===== src/Rlimits/Applied.antt =====
-- What `apply_resource_limit_policy` leaves of the limits of the process.
use layer_cake.Prelude.{
  ℕ, ◌≡◌, ◌≢◌, refl, ap, sym, ◌∙◌, true, false, Option, none, some, List, [], ◌∷◌, get_elem?, ◌==◌,
  if◌then◌else◌, Bool-cases, inl, inr, arith,
}
use layer_cake.Meowix.Errors.{SyscallError}
use layer_cake.Meowix.Act.{Act, done, ◌>>◌, pure, once-done, bind-done}
use layer_cake.Rlimits.{Rlimit, Rlimits}
use layer_cake.Rlimits.Limit.{into_raw}
use layer_cake.Rlimits.Apply.{
  LimitKernel, implement_limit, apply_resource_limit_policy, Resource, rlimit_as, rlimit_core,
  rlimit_cpu, rlimit_data, rlimit_fsize, rlimit_locks, rlimit_memlock, rlimit_msgqueue, rlimit_nice,
  rlimit_nofile, rlimit_nproc, rlimit_rtprio, rlimit_rttime, rlimit_sigpending, rlimit_stack,
}

-- The field of a resource.
abbrev pub limit_of : Rlimits → Resource → Option Rlimit
limit_of p rlimit_as = p.address_space
limit_of p rlimit_core = p.core
limit_of p rlimit_cpu = p.cpu
limit_of p rlimit_data = p.data_size
limit_of p rlimit_fsize = p.fsize
limit_of p rlimit_locks = p.locks
limit_of p rlimit_memlock = p.memlock
limit_of p rlimit_msgqueue = p.msgqueue
limit_of p rlimit_nice = p.nice
limit_of p rlimit_nofile = p.nofile
limit_of p rlimit_nproc = p.nproc
limit_of p rlimit_rtprio = p.rtprio
limit_of p rlimit_rttime = p.rttime
limit_of p rlimit_sigpending = p.sigpending
limit_of p rlimit_stack = p.stack

abbrev pub index : Resource → ℕ
index rlimit_as = 0
index rlimit_core = 1
index rlimit_cpu = 2
index rlimit_data = 3
index rlimit_fsize = 4
index rlimit_locks = 5
index rlimit_memlock = 6
index rlimit_msgqueue = 7
index rlimit_nice = 8
index rlimit_nofile = 9
index rlimit_nproc = 10
index rlimit_rtprio = 11
index rlimit_rttime = 12
index rlimit_sigpending = 13
index rlimit_stack = 14

abbrev resources : List Resource
resources =
    rlimit_as ∷ rlimit_core ∷ rlimit_cpu ∷ rlimit_data ∷ rlimit_fsize ∷ rlimit_locks
    ∷ rlimit_memlock ∷ rlimit_msgqueue ∷ rlimit_nice ∷ rlimit_nofile ∷ rlimit_nproc ∷ rlimit_rtprio
    ∷ rlimit_rttime ∷ rlimit_sigpending ∷ rlimit_stack ∷ []

get_elem?-index : (r : Resource) → get_elem? resources (index r) ≡ some r
get_elem?-index rlimit_as = refl
get_elem?-index rlimit_core = refl
get_elem?-index rlimit_cpu = refl
get_elem?-index rlimit_data = refl
get_elem?-index rlimit_fsize = refl
get_elem?-index rlimit_locks = refl
get_elem?-index rlimit_memlock = refl
get_elem?-index rlimit_msgqueue = refl
get_elem?-index rlimit_nice = refl
get_elem?-index rlimit_nofile = refl
get_elem?-index rlimit_nproc = refl
get_elem?-index rlimit_rtprio = refl
get_elem?-index rlimit_rttime = refl
get_elem?-index rlimit_sigpending = refl
get_elem?-index rlimit_stack = refl

pub index-inj : (q r : Resource) → index q ≡ index r → q ≡ r
index-inj q r e =
    some-inj (sym (get_elem?-index q) ∙ ap (get_elem? resources) e ∙ get_elem?-index r)
  where
    some-inj : {a b : Resource} → some a ≡ some b → a ≡ b
    some-inj p = cc

-- A limit that is given replaces the one in force.
abbrev pub replaced : Option Rlimit → ℕ × ℕ → ℕ × ℕ
replaced none v = v
replaced (some limit) v = into_raw limit

abbrev entries : Rlimits → List (Resource × Option Rlimit)
entries p =
    (rlimit_as, p.address_space)
    ∷ (rlimit_core, p.core)
    ∷ (rlimit_cpu, p.cpu)
    ∷ (rlimit_data, p.data_size)
    ∷ (rlimit_fsize, p.fsize)
    ∷ (rlimit_locks, p.locks)
    ∷ (rlimit_memlock, p.memlock)
    ∷ (rlimit_msgqueue, p.msgqueue)
    ∷ (rlimit_nice, p.nice)
    ∷ (rlimit_nofile, p.nofile)
    ∷ (rlimit_nproc, p.nproc)
    ∷ (rlimit_rtprio, p.rtprio)
    ∷ (rlimit_rttime, p.rttime)
    ∷ (rlimit_sigpending, p.sigpending)
    ∷ (rlimit_stack, p.stack)
    ∷ []

abbrev after : List (Resource × Option Rlimit) → Resource → ℕ × ℕ → ℕ × ℕ
after [] r v = v
after ((q, o) ∷ l) r v = after l r (if index q == index r then replaced o v else v)

after-entries :
    (p : Rlimits) (r : Resource) (v : ℕ × ℕ) → after (entries p) r v ≡ replaced (limit_of p r) v
after-entries p rlimit_as v = refl
after-entries p rlimit_core v = refl
after-entries p rlimit_cpu v = refl
after-entries p rlimit_data v = refl
after-entries p rlimit_fsize v = refl
after-entries p rlimit_locks v = refl
after-entries p rlimit_memlock v = refl
after-entries p rlimit_msgqueue v = refl
after-entries p rlimit_nice v = refl
after-entries p rlimit_nofile v = refl
after-entries p rlimit_nproc v = refl
after-entries p rlimit_rtprio v = refl
after-entries p rlimit_rttime v = refl
after-entries p rlimit_sigpending v = refl
after-entries p rlimit_stack v = refl

module _ (kernel : LimitKernel) where
  open kernel use {State, limits, prlimit64, prlimit64_done, prlimit64_other}

  abbrev apply_each : List (Resource × Option Rlimit) → Act State SyscallError (Unit {0})
  apply_each [] = pure tt
  apply_each ((r, o) ∷ l) = implement_limit kernel r o >> apply_each l

  implement_limit-limits :
      (q : Resource) (o : Option Rlimit) (s : State) (r : Resource)
      → (implement_limit kernel q o s).0 ≡ done tt
      → limits (implement_limit kernel q o s).1 r
        ≡ (if index q == index r then replaced o (limits s r) else limits s r)
  implement_limit-limits q none s r h = ground arith
  implement_limit-limits q (some limit) s r h =
      let (answer, left) = once-done (prlimit64 q (into_raw limit)) s tt h in
      ap (λ x. limits x r) left ∙ elim (Bool-cases (index q == index r)) [
        | inl e ↦ rw e (
            ap (limits (prlimit64 q (into_raw limit) s).1) (sym (index-inj q r (ground (arith, e))))
            ∙ prlimit64_done q (into_raw limit) s answer)
        | inr e ↦ rw e (prlimit64_other q r (into_raw limit) s (other e))
      ]
    where
      self : (q : Resource) → (index q == index q) ≡ true
      self q = ground arith

      differ : true ≢ false
      differ e = cc

      other : (index q == index r) ≡ false → r ≢ q
      other e same = differ (sym (self q) ∙ ap (λ x. index q == index x) (sym same) ∙ e)

  apply_each-limits :
      (l : List (Resource × Option Rlimit)) (s : State) (r : Resource)
      → (apply_each l s).0 ≡ done tt
      → limits (apply_each l s).1 r ≡ after l r (limits s r)
  apply_each-limits [] s r h = refl
  apply_each-limits ((q, o) ∷ l) s r h =
      let (u, first, rest) = bind-done (implement_limit kernel q o) (λ _. apply_each l) s tt h in
      ap (λ x. limits x.1 r) rest
      ∙ apply_each-limits l (implement_limit kernel q o s).1 r (ap (λ x. x.0) (sym rest) ∙ h)
      ∙ ap (after l r) (implement_limit-limits q o s r first)

  -- A call of `apply_resource_limit_policy` that succeeds leaves every resource whose limit the
  -- policy gives with that limit, infinity as the greatest `u64`, and every other resource with
  -- the limit it had.
  pub apply_resource_limit_policy-limits :
      (policy : Rlimits) (s : State) (r : Resource)
      → (apply_resource_limit_policy kernel policy s).0 ≡ done tt
      → limits (apply_resource_limit_policy kernel policy s).1 r
        ≡ replaced (limit_of policy r) (limits s r)
  unfolding apply_resource_limit_policy
  apply_resource_limit_policy-limits policy s r h =
      apply_each-limits (entries policy) s r h ∙ after-entries policy r (limits s r)

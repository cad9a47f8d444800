-- ===== src/Examples/Kernels.antt =====
-- Kernels whose state is what the laws of the kernel's parameters speak of.
use layer_cake.Prelude.{
  ◌<◌, ◌≤◌, ℕ, zero, suc, ◌+◌, ◌≡◌, ◌≢◌, refl, ap, sym, ◌∙◌, Bool, true, false, Option, none, some,
  Option-cases, inl, inr, ◌==◌, if◌then◌else◌, Result, ok, err, arith,
}
use layer_cake.Prelude.Int.{ℤ, pos, negsuc}
use layer_cake.Meowix.Errors.{intr, errno, unknown, SyscallError}
use layer_cake.Meowix.Act.{is_intr}
use layer_cake.Rlimits.Apply.{Resource, LimitKernel}
use layer_cake.Rlimits.Applied.{index, index-inj}
use layer_cake.FdPolicy.Kernel.{FdEntry, Table, with_flag, put, mark, FdKernel}

abbrev pub bad_fd : SyscallError
bad_fd = record { syscall = unknown; error = errno 9 }

abbrev pub dup3_of : Option FdEntry → ℤ → Table → Result (Unit {0}) SyscallError × Table
dup3_of none new t = (err bad_fd, t)
dup3_of (some e) (negsuc n) t = (err bad_fd, t)
dup3_of (some e) (pos n) t = (ok tt, put n (with_flag false (some e)) t)

-- The first number that is free, among `n` numbers from `k`.
abbrev pub free_from : ℕ → ℕ → Table → Option ℕ
free_from zero k t = none
free_from (suc n) k t = elim (t k) [ none ↦ some k | some e ↦ free_from n (k + 1) t ]

abbrev pub dupfd_of : Option ℕ → ℕ → Table → Result ℕ SyscallError × Table
dupfd_of none fd t = (err bad_fd, t)
dupfd_of (some n) fd t = (ok n, put n (with_flag true (t fd)) t)

pub free_from-none : (n k : ℕ) (t : Table) (m : ℕ) → free_from n k t ≡ some m → t m ≡ none
free_from-none zero k t m h = cc
free_from-none (suc n) k t m h = elim (Option-cases (t k)) [
  | inl e ↦ ap t (sym (some-inj (rw (e, free_from) at h))) ∙ e
  | inr (x, e) ↦ free_from-none n (k + 1) t m (rw (e, free_from) at h)
]
  where
    some-inj : {a b : ℕ} → some a ≡ some b → a ≡ b
    some-inj p = cc

pub dup3_of-done :
    (o : Option FdEntry) (n : ℕ) (t : Table)
    → (dup3_of o (pos n) t).0 ≡ ok tt
    → (o ≢ none) × ((dup3_of o (pos n) t).1 ≡ put n (with_flag false o) t)
dup3_of-done none n t h = cc
dup3_of-done (some e) n t h = ((λ q. cc), refl)

pub dup3_of-failed :
    (o : Option FdEntry) (n : ℕ) (t : Table) (e : SyscallError)
    → (dup3_of o (pos n) t).0 ≡ err e
    → (dup3_of o (pos n) t).1 ≡ t
dup3_of-failed none n t e h = refl
dup3_of-failed (some x) n t e h = cc

pub dupfd_of-done :
    (o : Option ℕ) (fd n : ℕ) (t : Table)
    → (dupfd_of o fd t).0 ≡ ok n
    → (o ≡ some n) × ((dupfd_of o fd t).1 ≡ put n (with_flag true (t fd)) t)
dupfd_of-done none fd n t h = cc
dupfd_of-done (some m) fd n t h =
    (ap some (ok-inj h), ap (λ x. put x (with_flag true (t fd)) t) (ok-inj h))
  where
    ok-inj : {a b : ℕ} → ◌≡◌ {A = Result ℕ SyscallError} (ok a) (ok b) → a ≡ b
    ok-inj p = cc

pub dupfd_of-failed :
    (o : Option ℕ) (fd : ℕ) (t : Table) (e : SyscallError)
    → (dupfd_of o fd t).0 ≡ err e
    → (dupfd_of o fd t).1 ≡ t
dupfd_of-failed none fd t e h = refl
dupfd_of-failed (some m) fd t e h = cc

abbrev pub table_kernel : FdKernel
table_kernel = record {
  State = Table;
  entry = λ t. t;
  dup3 = λ old new t. dup3_of (t old) new t;
  close_range = λ first last t. (ok tt, mark first last t);
  dupfd_cloexec = λ fd t. dupfd_of (free_from 64 0 t) fd t;
  close = λ fd t. put fd none t;
  dup3_done = λ old new t h. dup3_of-done (t old) new t h;
  dup3_failed = λ old new t e h. dup3_of-failed (t old) new t e h;
  close_range_done = λ first last t h. refl;
  close_range_failed = λ first last t e h. cc;
  dupfd_done = λ fd n t h.
      let (free, after) = dupfd_of-done (free_from 64 0 t) fd n t h in
      (free_from-none 64 0 t n free, after);
  dupfd_failed = λ fd t e h. dupfd_of-failed (free_from 64 0 t) fd t e h;
  close_done = λ fd t. refl;
}

-- Limits that are set without a check.
abbrev pub same_resource : Resource → Resource → Bool
same_resource q r = index q == index r

abbrev pub set_limit : Resource → ℕ × ℕ → (Resource → ℕ × ℕ) → Resource → ℕ × ℕ
set_limit r v s q = if same_resource q r then v else s q

pub set_limit-same : (r : Resource) (v : ℕ × ℕ) (s : Resource → ℕ × ℕ) → set_limit r v s r ≡ v
set_limit-same r v s = ground arith

pub set_limit-other :
    (r q : Resource) (v : ℕ × ℕ) (s : Resource → ℕ × ℕ) → q ≢ r → set_limit r v s q ≡ s q
set_limit-other r q v s h = ground (arith, apart)
  where
    apart : index q ≢ index r
    apart e = h (index-inj q r e)

abbrev pub limit_kernel : LimitKernel
limit_kernel = record {
  State = Resource → ℕ × ℕ;
  limits = λ s. s;
  prlimit64 = λ r v s. (ok tt, set_limit r v s);
  prlimit64_done = λ r v s h. set_limit-same r v s;
  prlimit64_other = λ r q v s h. set_limit-other r q v s h;
  prlimit64_failed = λ r v s e h. cc;
}

-- The same kernel, where dup3 is interrupted as often as the second part of the state says.
abbrev pub Busy : Type 0
Busy = Table × ℕ

abbrev pub interrupted : SyscallError
interrupted = record { syscall = unknown; error = intr }

abbrev pub with_table :
    {A : Type 0} → Result A SyscallError × Table → ℕ → Result A SyscallError × Busy
with_table r n = (r.0, (r.1, n))

abbrev pub busy_dup3 : ℕ → ℤ → Table → ℕ → Result (Unit {0}) SyscallError × Busy
busy_dup3 old new t (suc n) = (err interrupted, (t, n))
busy_dup3 old new t zero = with_table (dup3_of (t old) new t) zero

pub busy_dup3-done :
    (old new : ℕ) (t : Table) (n : ℕ)
    → (busy_dup3 old (pos new) t n).0 ≡ ok tt
    → (t old ≢ none) × ((busy_dup3 old (pos new) t n).1.0 ≡ put new (with_flag false (t old)) t)
busy_dup3-done old new t (suc n) h = cc
busy_dup3-done old new t zero h = dup3_of-done (t old) new t h

pub busy_dup3-failed :
    (old new : ℕ) (t : Table) (n : ℕ) (e : SyscallError)
    → (busy_dup3 old (pos new) t n).0 ≡ err e
    → (busy_dup3 old (pos new) t n).1.0 ≡ t
busy_dup3-failed old new t (suc n) e h = refl
busy_dup3-failed old new t zero e h = dup3_of-failed (t old) new t e h

abbrev pub busy_kernel : FdKernel
busy_kernel = record {
  State = Busy;
  entry = λ s. s.0;
  dup3 = λ old new s. busy_dup3 old new s.0 s.1;
  close_range = λ first last s. (ok tt, (mark first last s.0, s.1));
  dupfd_cloexec = λ fd s. with_table (dupfd_of (free_from 64 0 s.0) fd s.0) s.1;
  close = λ fd s. (put fd none s.0, s.1);
  dup3_done = λ old new s h. busy_dup3-done old new s.0 s.1 h;
  dup3_failed = λ old new s e h. busy_dup3-failed old new s.0 s.1 e h;
  close_range_done = λ first last s h. refl;
  close_range_failed = λ first last s e h. cc;
  dupfd_done = λ fd n s h.
      let (free, after) = dupfd_of-done (free_from 64 0 s.0) fd n s.0 h in
      (free_from-none 64 0 s.0 n free, after);
  dupfd_failed = λ fd s e h. dupfd_of-failed (free_from 64 0 s.0) fd s.0 e h;
  close_done = λ fd s. refl;
}

pub busy_dup3-steady : (old : ℕ) (new : ℤ) (t : Table) (n : ℕ) → (busy_dup3 old new t n).1.1 ≤ n
busy_dup3-steady old new t (suc n) = omega arith
busy_dup3-steady old new t zero = omega arith

pub busy_dup3-falls :
    (old : ℕ) (new : ℤ) (t : Table) (n : ℕ)
    → is_intr (busy_dup3 old new t n).0 ≡ true
    → (busy_dup3 old new t n).1.1 < n
busy_dup3-falls old new t (suc n) h = omega arith
busy_dup3-falls old new t zero h = absurd (settled (t old) new h)
  where
    settled : (o : Option FdEntry) (new : ℤ) → is_intr (dup3_of o new t).0 ≡ true → ⊥
    settled none new h = cc
    settled (some e) (negsuc n) h = cc
    settled (some e) (pos n) h = cc

-- ===== src/Examples/Pipes.antt =====
-- Reads and writes on a pipe whose state is the bytes that it holds.
use layer_cake.Prelude.{
  suc, ℕ, zero, suc, ◌+◌, ◌≤◌, ◌<◌, ◌≡◌, ◌≢◌, refl, ap, sym, ◌∙◌, Bytes, length, take, drop, ◌++◌,
  [], ◌∷◌, true, ok, err, Result, length-take, take-drop, take_all, arith,
}
use layer_cake.Prelude.Int.{ℤ, pos, negsuc}
use layer_cake.Meowix.Errors.{intr, SyscallError}
use layer_cake.Meowix.Act.{Act, Call, Outcome, done, failed, stuck, pure, is_intr}
use layer_cake.Meowix.Io.{read_array, read_until_full, read_to_end, write_until_stalled, write_all}
use layer_cake.Meowix.Io.Reading.{
  Filled, FilledWhole, read_until_full-Filled, read_array-FilledWhole,
}
use layer_cake.Meowix.Io.ToEnd.{Whole, read_to_end-Whole}
use layer_cake.Meowix.Io.Writing.{
  Written, WrittenWhole, write_until_stalled-Written, write_all-WrittenWhole,
}
use layer_cake.Meowix.Digits.{
  IsDigits, compute_decimal_digits_u128, unsigned_decimal_digits_upper_bound,
  compute_decimal_digits_u128-IsDigits, unsigned_decimal_digits_upper_bound_sound,
}
use layer_cake.Spawn.Wire.{PostSpawnGuest, PostSpawnGuestWire, incomplete_write}
use layer_cake.Spawn.WireLaws.{HasErrnos}
use layer_cake.Spawn.Protocol.{SpawnAction, exec, exec_failed, host_post_clone, guest_process}
use layer_cake.Spawn.Protocol.Sent.{messages, Ended, IsEndOf, guest_process-Ended}
use layer_cake.Spawn.Protocol.Verdict.{verdict, host_post_clone-verdict}

abbrev read : ℕ → Call Bytes Bytes
read n s = (ok (take n s), drop n s)

abbrev same : Bytes → Bytes
same s = s

abbrev pub none_pending : Bytes → ℕ
none_pending s = 0

ok-inj : {A : Type 0} {a b : A} → ◌≡◌ {A = Result A SyscallError} (ok a) (ok b) → a ≡ b
ok-inj e = cc

read_rest : (n : ℕ) (s bs : Bytes) → (read n s).0 ≡ ok bs → s ≡ bs ++ drop n s
read_rest n s bs e = sym (take-drop n s) ∙ ap (λ x. x ++ drop n s) (ok-inj e)

read_takes :
    (n : ℕ) (s bs : Bytes) → (read n s).0 ≡ ok bs → (length bs ≤ n) × (s ≡ bs ++ (read n s).1)
read_takes n s bs e = (omega (arith, ap length (ok-inj e), length-take n s), read_rest n s bs e)

read_ends : (n : ℕ) (s : Bytes) → 0 < n → (read n s).0 ≡ ok [] → s ≡ []
read_ends n [] h e = refl
read_ends n (b ∷ s) h e = absurd (omega (arith, ap length (ok-inj e), length-take n (b ∷ s)))

read_fails : (n : ℕ) (s : Bytes) (e : SyscallError) → (read n s).0 ≡ err e → (read n s).1 ≡ s
read_fails n s e h = cc

read_steady : (n : ℕ) (s : Bytes) → none_pending (read n s).1 ≤ none_pending s
read_steady n s = omega arith

read_falls :
    (n : ℕ) (s : Bytes) → is_intr (read n s).0 ≡ true → none_pending (read n s).1 < none_pending s
read_falls n s h = cc

abbrev pub write : Bytes → Call Bytes ℕ
write value s = (ok (length value), s ++ value)

pub write_takes :
    (value s : Bytes) (n : ℕ)
    → (write value s).0 ≡ ok n
    → (n ≤ length value) × ((write value s).1 ≡ s ++ take n value)
write_takes value s n e =
    (omega (arith, ok-inj e), ap (λ x. s ++ x) (sym (take_all n value (omega (arith, ok-inj e)))))

pub write_fails :
    (value s : Bytes) (e : SyscallError) → (write value s).0 ≡ err e → (write value s).1 ≡ s
write_fails value s e h = cc

pub write_steady : (value s : Bytes) → none_pending (write value s).1 ≤ none_pending s
write_steady value s = omega arith

pub write_falls :
    (value s : Bytes)
    → is_intr (write value s).0 ≡ true
    → none_pending (write value s).1 < none_pending s
write_falls value s h = cc

write_some : (value s : Bytes) → 0 < length value → (write value s).0 ≢ ok 0
write_some value s h e = absurd (omega (arith, ok-inj e, h))

write_only_interrupted :
    (value s : Bytes) (e : SyscallError)
    → (write value s).0 ≡ err e
    → e.error.encoded ≡ intr.encoded
write_only_interrupted value s e h = cc

enough : (s : Bytes) → none_pending s + 6 < 9
enough s = omega arith

abbrev three : Bytes
three = 1 ∷ 2 ∷ 3 ∷ []

-- Three bytes, of which two fit.
read_until_full-Filled_example :
    Filled read same none_pending read_takes read_ends read_fails read_steady read_falls three 2
      (read_until_full read 9 2 three).0
      (read_until_full read 9 2 three).1
read_until_full-Filled_example =
    read_until_full-Filled read same none_pending read_takes read_ends read_fails read_steady
      read_falls 9 2 three (omega arith)

-- Three bytes, where five are asked for.
read_array-FilledWhole_example :
    FilledWhole read same none_pending read_takes read_ends read_fails read_steady read_falls three
      5
      (read_array read 9 5 three).0
      (read_array read 9 5 three).1
read_array-FilledWhole_example =
    read_array-FilledWhole read same none_pending read_takes read_ends read_fails read_steady
      read_falls 9 5 three (omega arith)

abbrev reserve : Bytes → ℕ → ℕ
reserve buf n = n

read_to_end-Whole_example :
    Whole read reserve same none_pending
      (λ buf n. omega arith)
      read_rest
      read_ends
      read_fails
      read_steady
      read_falls
      (7 ∷ 1 ∷ 2 ∷ 3 ∷ [])
      (read_to_end reserve read 9 (7 ∷ [], 0) three).0
      (read_to_end reserve read 9 (7 ∷ [], 0) three).1
read_to_end-Whole_example =
    read_to_end-Whole read reserve same none_pending (λ buf n. omega arith) read_rest read_ends
      read_fails read_steady read_falls 9 (7 ∷ []) 0 three (omega arith)

write_until_stalled-Written_example :
    Written write same none_pending write_takes write_fails write_steady write_falls [] three
      (write_until_stalled write 9 three []).0
      (write_until_stalled write 9 three []).1
write_until_stalled-Written_example =
    write_until_stalled-Written write same none_pending write_takes write_fails write_steady
      write_falls 9 three [] (omega arith)

write_all-WrittenWhole_example :
    WrittenWhole write same none_pending write_takes write_fails write_steady write_falls [] three
      (write_all write 9 three []).0
      (write_all write 9 three []).1
write_all-WrittenWhole_example =
    write_all-WrittenWhole write same none_pending write_takes write_fails write_steady write_falls
      9 three [] (omega arith)

compute_decimal_digits_u128-IsDigits_example : IsDigits 1234 (compute_decimal_digits_u128 1234)
compute_decimal_digits_u128-IsDigits_example =
    compute_decimal_digits_u128-IsDigits 1234 (omega arith)

-- A `u64`.
unsigned_decimal_digits_upper_bound_sound_example :
    compute_decimal_digits_u128 1234 ≤ unsigned_decimal_digits_upper_bound 8
unsigned_decimal_digits_upper_bound_sound_example =
    unsigned_decimal_digits_upper_bound_sound 8 1234 (omega arith) (omega arith)

-- A message of six bytes.
abbrev encode_value : ℤ → Bytes
encode_value (pos n) = 0 ∷ n ∷ []
encode_value (negsuc n) = 1 ∷ n ∷ []

abbrev encode : PostSpawnGuestWire → Bytes
encode w = w.tag ∷ w.subtag ∷ encode_value w.value ++ 0 ∷ 0 ∷ []

abbrev decode_value : ℕ → ℕ → ℤ
decode_value zero n = pos n
decode_value (suc k) n = negsuc n

abbrev decode : Bytes → PostSpawnGuestWire
decode (t ∷ s ∷ k ∷ n ∷ rest) = record { tag = t; subtag = s; value = decode_value k n }
decode _ = record { tag = 0; subtag = 0; value = pos 0 }

encode_length : (w : PostSpawnGuestWire) → length (encode w) ≡ 6
encode_length w = go w.value
  where
    go : (v : ℤ) → suc (suc (length (encode_value v ++ 0 ∷ 0 ∷ []))) ≡ 6
    go (pos n) = refl
    go (negsuc n) = refl

decode-encode : (w : PostSpawnGuestWire) → decode (encode w) ≡ w
decode-encode w = go w.tag w.subtag w.value
  where
    go :
        (t s : ℕ) (v : ℤ)
        → decode (encode (record { tag = t; subtag = s; value = v }))
          ≡ record { tag = t; subtag = s; value = v }
    go t s (pos n) = refl
    go t s (negsuc n) = refl

abbrev setup : Act Bytes PostSpawnGuest SpawnAction
setup s = (done exec, s)

-- The steps before the exec fail.
abbrev exec_steps : Act Bytes PostSpawnGuest (Unit {0})
exec_steps s = (failed incomplete_write, s)

incomplete_write-HasErrnos :
    (e : PostSpawnGuest)
    → ◌≡◌ {A = Outcome (Unit {0}) PostSpawnGuest} (failed incomplete_write) (failed e)
    → HasErrnos e
incomplete_write-HasErrnos e h =
    let same_error : incomplete_write ≡ e = cc in rw (sym same_error) tt

exec_keeps : (s : Bytes) → same (exec_steps s).1 ≡ same s
exec_keeps s = refl

exec_ends : (s : Bytes) → (exec_steps s).0 ≢ stuck
exec_ends s e = cc

exec_errnos : (s : Bytes) (e : PostSpawnGuest) → (exec_steps s).0 ≡ failed e → HasErrnos e
exec_errnos s e h = incomplete_write-HasErrnos e h

guest_process-Ended_example :
    Ended encode encode_length write same none_pending write_takes write_fails write_steady
      write_falls write_some write_only_interrupted 9 enough
      (IsEndOf encode encode_length write same none_pending write_takes write_fails write_steady
        write_falls write_some write_only_interrupted 9 enough exec_steps
        (λ s. refl)
        (λ s e. cc)
        (λ s e h. incomplete_write-HasErrnos e h)
        []
        (done exec))
      []
      (guest_process encode write 9 setup exec_steps [])
guest_process-Ended_example =
    guest_process-Ended encode encode_length write same none_pending write_takes write_fails
      write_steady write_falls write_some write_only_interrupted 9 enough exec_steps exec_keeps
      exec_ends exec_errnos setup [] refl (λ e. cc) (λ e h. cc)

host_post_clone-verdict_example :
    (host_post_clone decode read 9
      (pure {E = ℕ} tt)
      (messages encode (exec_failed incomplete_write))).0
    ≡ verdict (exec_failed incomplete_write)
host_post_clone-verdict_example =
    host_post_clone-verdict encode decode encode_length decode-encode read same none_pending
      read_takes read_ends read_fails read_steady read_falls (λ n s e h. cc) 9 enough
      (exec_failed incomplete_write) (pure tt) (messages encode (exec_failed incomplete_write)) tt
      refl refl

-- ===== src/Io/Tests.antt =====
-- Files of six bytes whose reads and writes are of two bytes at most and are interrupted a number of times.
use swiftlink.Common.{
  ℕ, zero, suc, ◌+◌, ◌≤◌, ◌<◌, ◌≡◌, ◌⊎◌, inl, inr, min, refl, arith, Bool, true, false, some, List,
  [], ◌∷◌, length, take, drop, get_or, leb, ltb, ◌&&◌, ◌==◌, if◌then◌else◌, max, ◌-◌,
}
use swiftlink.Common.Signed.{ℤ, pos, negsuc, signed64}
use swiftlink.Io.File.{
  Posix, ReadResult, WriteResult, read, read_interrupted, read_failed, write_failed, written,
  write_interrupted, value, read_at, read_loop, write_at, write_loop,
}
use swiftlink.Io.File.Reads.{Reads, read_at_lem}
use swiftlink.Io.File.Writes.{Stored, Writes, write_at_lem}

abbrev six : List ℕ
six = 1 ∷ 2 ∷ 3 ∷ 4 ∷ 5 ∷ 6 ∷ []

-- a negative offset is refused
abbrev at_offset : {A : Type 0} → ℤ → A → (ℕ → A) → A
at_offset (pos n) refused go = go n
at_offset (negsuc n) refused go = refused

abbrev flaky_pread : ℕ → ℕ → ℕ → ReadResult × ℕ
flaky_pread want offset zero = (read (take (min want 2) (drop offset six)), zero)
flaky_pread want offset (suc left) = (read_interrupted, left)

-- the kernel's state is how many interruptions are left
abbrev flaky : Posix
flaky = record {
  Kernel = ℕ;
  Descriptor = Bool;
  open_rdonly = λ path k. (some true, k);
  open_truncated = λ path k. (some true, k);
  close_fd = λ fd k. k;
  pread = λ fd want offset k. at_offset offset (read_failed, k) (λ n. flaky_pread want n k);
  pwrite = λ fd bytes offset k. (written (min 2 (length bytes)), k);
  fsync = λ fd k. (true, k);
  file_size = λ fd k. some 6;
}

flaky_call :
    (want offset k : ℕ)
    → (((flaky_pread want offset k).0 ≡ read_interrupted) × ((flaky_pread want offset k).1 < k))
      ⊎ ((n : ℕ) × (((flaky_pread want offset k).0 ≡ read (take n (drop offset six)))
            × ((n ≤ want) × (((flaky_pread want offset k).1 ≤ k) × (0 < want → 0 < n)))))
flaky_call want offset zero =
    inr (min want 2, (refl, (omega arith, (omega arith, λ some_wanted. omega arith))))
flaky_call want offset (suc left) = inl (refl, omega arith)

abbrev flaky_reads : Reads flaky true six
flaky_reads = record { patience = λ k. k; call = λ want offset k within. flaky_call want offset k }

read_at_lem_example : (read_at flaky 9 (some true) 5 1 3).0 ≡ value (take 5 (drop 1 six))
read_at_lem_example = read_at_lem flaky true six flaky_reads 5 1 (omega arith) 9 3 (omega arith)

flaky_run : (read_at flaky 9 (some true) 5 1 3).0 ≡ value (2 ∷ 3 ∷ 4 ∷ 5 ∷ 6 ∷ [])
unfolding read_at read_loop signed64
flaky_run = refl

write_run : (write_at flaky 9 (some true) six 0 0).0 ≡ value 6
unfolding write_at write_loop signed64
write_run = refl

-- A device of small writes: how many interruptions are left, and the file.
record Device : Type 0 where
  left : ℕ
  size : ℕ
  at : ℕ → ℕ

abbrev overwrite : ℕ → ℕ → List ℕ → ℕ → Device → Device
overwrite left n bytes offset d = record {
  left = left;
  size = max d.size (if n == 0 then 0 else offset + n);
  at = λ i. if leb offset i && ltb i (offset + n) then get_or bytes (i - offset) 0 else d.at i;
}

overwrite-Stored :
    (left n : ℕ) (bytes : List ℕ) (offset : ℕ) (d : Device)
    → Stored (λ d. d.size) (λ d. d.at) bytes offset n d (overwrite left n bytes offset d)
overwrite-Stored left n bytes offset d = record {
  grows = refl;
  stores = λ i h.
      let back : offset + i - offset ≡ i = omega arith in
      let within : (leb offset (offset + i) && ltb (offset + i) (offset + n)) ≡ true =
        ground arith in
      rw (within, back) refl;
  keeps = λ i out.
      let outside : (leb offset i && ltb i (offset + n)) ≡ false = ground (arith, out) in
      rw outside refl;
}

abbrev pairs_pwrite : List ℕ → ℕ → ℕ → Device → WriteResult × Device
pairs_pwrite bytes offset (suc left) d = (write_interrupted, overwrite left 0 bytes offset d)
pairs_pwrite [] offset zero d = (written 0, d)
pairs_pwrite (b ∷ []) offset zero d = (written 1, overwrite 0 1 (b ∷ []) offset d)
pairs_pwrite (b ∷ c ∷ bs) offset zero d = (written 2, overwrite 0 2 (b ∷ c ∷ bs) offset d)

abbrev pairs : Posix
pairs = record {
  Kernel = Device;
  Descriptor = Bool;
  open_rdonly = λ path k. (some true, k);
  open_truncated = λ path k. (some true, k);
  close_fd = λ fd k. k;
  pread = λ fd want offset k. (read [], k);
  pwrite =
      λ fd bytes offset k. at_offset offset (write_failed, k) (λ n. pairs_pwrite bytes n k.left k);
  fsync = λ fd k. (true, k);
  file_size = λ fd k. some k.size;
}

-- The call by the number of interruptions left.
pairs_call :
    (bytes : List ℕ) (offset left : ℕ) (d : Device)
    → 0 < length bytes
    → (((pairs_pwrite bytes offset left d).0 ≡ write_interrupted)
        × (((pairs_pwrite bytes offset left d).1.left < left)
            × Stored
                (λ d. d.size)
                (λ d. d.at)
                bytes
                offset
                0
                d
                (pairs_pwrite bytes offset left d).1))
      ⊎ ((n : ℕ) × (((pairs_pwrite bytes offset left d).0 ≡ written (suc n))
            × ((suc n ≤ length bytes)
                × (((pairs_pwrite bytes offset left d).1.left ≤ left)
                    × Stored
                        (λ d. d.size)
                        (λ d. d.at)
                        bytes
                        offset
                        (suc n)
                        d
                        (pairs_pwrite bytes offset left d).1))))
pairs_call bytes offset (suc left) d some_bytes =
    inl (refl, (omega arith, overwrite-Stored left 0 bytes offset d))
pairs_call [] offset zero d some_bytes = absurd (omega arith)
pairs_call (b ∷ []) offset zero d some_bytes =
    inr (0, (refl, (omega arith, (omega arith, overwrite-Stored 0 1 (b ∷ []) offset d))))
pairs_call (b ∷ c ∷ bs) offset zero d some_bytes =
    inr (1, (refl, (omega arith, (omega arith, overwrite-Stored 0 2 (b ∷ c ∷ bs) offset d))))

abbrev pairs-Writes : Writes pairs true (λ d. d.size) (λ d. d.at)
pairs-Writes = record {
  patience = λ d. d.left;
  call = λ bytes offset d some_bytes within. pairs_call bytes offset d.left d some_bytes;
}

abbrev blank : Device
blank = record { left = 3; size = 0; at = λ i. 0 }

write_at_lem_example :
    ((write_at pairs 10 (some true) six 1 blank).0 ≡ value 6)
    × Stored (λ d. d.size) (λ d. d.at) six 1 6 blank (write_at pairs 10 (some true) six 1 blank).1
write_at_lem_example =
    write_at_lem pairs true (λ d. d.size) (λ d. d.at) pairs-Writes six 1 (omega arith) 10 blank
      (omega arith)

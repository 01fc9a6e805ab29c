-- ===== src/Io/File/Writes.antt =====
-- `write_at` of src/io/file.cpp over a system that may write short and be interrupted.
use swiftlink.Common.{
  ℕ, zero, suc, ◌+◌, ◌-◌, ◌%◌, ◌^◌, ◌≤◌, ◌<◌, ◌≡◌, ◌⊎◌, inl, inr, refl, sym, ap, subst, ◌∙◌, arith,
  true, false, some, List, length, drop, length-drop, get_or, get_or-drop, ltb, dec_lt, max, ◌==◌,
  if◌then◌else◌,
}
use swiftlink.Common.Signed.{ℤ, pos, signed64, signed64-pos}
use swiftlink.Io.File.{Posix, Finished, written, write_interrupted, value, write_loop, write_at}

-- From one state of the kernel to the next, the first `n` of the bytes came to stand in the file from the
-- offset on, and no other byte changed. `size` and `byte` say what the file holds.
pub record Stored {K : Type 0} (size : K → ℕ) (byte : K → ℕ → ℕ) (bytes : List ℕ) (offset n : ℕ)
    (k l : K) : Type 0 where
  pub grows : size l ≡ max (size k) (if n == 0 then 0 else offset + n)
  pub stores : (i : ℕ) → i < n → byte l (offset + i) ≡ get_or bytes i 0
  pub keeps : (i : ℕ) → (i < offset) ⊎ (offset + n ≤ i) → byte l i ≡ byte k i

-- A call of pwrite is interrupted before it wrote anything; or it writes one byte at least at `offset` and
-- tells how many it wrote.
abbrev pub WritesAt :
    (px : Posix)
    → px.Descriptor
    → (px.Kernel → ℕ)
    → (px.Kernel → ℕ → ℕ)
    → (px.Kernel → ℕ)
    → List ℕ
    → ℕ
    → ℤ
    → px.Kernel
    → Type 0
WritesAt px fd size byte patience bytes offset at k =
    let call = px.pwrite fd bytes at k in
    ((call.0 ≡ write_interrupted)
      × ((patience call.1 < patience k) × Stored size byte bytes offset 0 k call.1))
    ⊎ ((n : ℕ) × ((call.0 ≡ written (suc n))
          × ((suc n ≤ length bytes)
              × ((patience call.1 ≤ patience k) × Stored size byte bytes offset (suc n) k call.1))))

-- What pwrite(2) documents, on a device that takes the bytes, where the offset is not negative and the range
-- that is written ends below 2^63. Only so many calls are interrupted: `patience` is left.
pub record Writes (px : Posix) (fd : px.Descriptor) (size : px.Kernel → ℕ)
    (byte : px.Kernel → ℕ → ℕ) : Type 0 where
  pub patience : px.Kernel → ℕ
  pub call :
      (bytes : List ℕ) (offset : ℕ) (k : px.Kernel)
      → 0 < length bytes
      → offset + length bytes < 2 ^ 63
      → WritesAt px fd size byte patience bytes offset (pos offset) k

grown :
    (s a b offset n m : ℕ)
    → a ≡ max s (if n == 0 then 0 else offset + n)
    → b ≡ max a (if m == 0 then 0 else offset + n + m)
    → b ≡ max s (if n + m == 0 then 0 else offset + (n + m))
grown s a b offset n m e e' = ground arith

module _ {K : Type 0} (size : K → ℕ) (byte : K → ℕ → ℕ) (bytes : List ℕ) (offset : ℕ) where
  -- Nothing written yet.
  Stored-none : (k : K) → Stored size byte bytes offset 0 k k
  Stored-none k = record {
    grows = omega arith;
    stores = λ i h. absurd (omega arith);
    keeps = λ i out. refl;
  }

  -- The bytes of a call follow those before it.
  Stored-trans :
      (n m : ℕ) (j k l : K)
      → Stored size byte bytes offset n j k
      → Stored size byte (drop n bytes) (offset + n) m k l
      → Stored size byte bytes offset (n + m) j l
  Stored-trans n m j k l x y = record {
    grows = grown (size j) (size k) (size l) offset n m x.grows y.grows;
    stores = λ i h. elim (dec_lt i n) [
      | yes before ↦ y.keeps (offset + i) (inl (omega arith)) ∙ x.stores i before
      | no after ↦
          let there : offset + n + (i - n) ≡ offset + i = omega arith in
          let index : n + (i - n) ≡ i = omega arith in
          ap (byte l) (sym there)
          ∙ y.stores (i - n) (omega arith)
          ∙ get_or-drop n (i - n) bytes 0
          ∙ ap (λ p. get_or bytes p 0) index
    ];
    keeps = λ i out. y.keeps i (ground (arith, out)) ∙ x.keeps i (ground (arith, out));
  }

module _ (px : Posix) (fd : px.Descriptor) (size : px.Kernel → ℕ) (byte : px.Kernel → ℕ → ℕ)
    (w : Writes px fd size byte) (bytes : List ℕ) (offset : ℕ)
    (narrow : offset + length bytes < 2 ^ 63) where
  abbrev Done : px.Kernel → Finished ℕ × px.Kernel → Type 0
  Done k out = (out.0 ≡ value (length bytes)) × Stored size byte bytes offset (length bytes) k out.1

  write_loop_lem :
      (fuel done : ℕ) (j k : px.Kernel)
      → done ≤ length bytes
      → Stored size byte bytes offset done j k
      → length bytes - done + w.patience k < fuel
      → Done j (write_loop px fuel fd bytes offset done k)
  unfolding write_loop
  write_loop_lem zero done j k le x enough = absurd (omega arith)
  write_loop_lem (suc fuel) done j k le x enough = elim (dec_lt done (length bytes)) [
    | no full ↦
        let stop : ltb done (length bytes) ≡ false = ground arith in
        let all : done ≡ length bytes = omega arith in
        rw stop (ap value all, subst (λ n. Stored size byte bytes offset n j k) all x)
    | yes more ↦
        let go : ltb done (length bytes) ≡ true = ground arith in
        let at = signed64 ((offset + done) % 2 ^ 64) in
        let here : at ≡ pos (offset + done) =
          ap signed64 (omega arith) ∙ signed64-pos (offset + done) (omega arith) in
        let rest = drop done bytes in
        let call = px.pwrite fd rest at k in
        let after : (n : ℕ)
            → Stored size byte rest (offset + done) n k call.1
            → Stored size byte bytes offset (done + n) j call.1 =
          λ n y. Stored-trans size byte bytes offset done n j k call.1 x y in
        let writes : WritesAt px fd size byte w.patience rest (offset + done) at k =
          subst (λ o. WritesAt px fd size byte w.patience rest (offset + done) o k) (sym here)
            (w.call rest (offset + done) k (omega (arith, length-drop done bytes))
              (omega (arith, length-drop done bytes))) in
        elim writes [
          | inl (e, (less, y)) ↦
              let still : done + 0 ≡ done = omega arith in
              rw (go, e)
                (write_loop_lem fuel done j call.1 le
                  (subst (λ n. Stored size byte bytes offset n j call.1) still (after 0 y))
                  (omega arith))
          | inr (n, (e, (small, (kept, y)))) ↦
              rw (go, e)
                (write_loop_lem fuel (done + suc n) j call.1 (omega (arith, length-drop done bytes))
                  (after (suc n) y) (omega arith))
        ]
  ]

  -- On a device that takes the bytes, `write_at` of an open file returns the number of the bytes and
  -- leaves all of them in the file from the offset on and every other byte as it was, however short
  -- the writes of the system are and however often they are interrupted, with one round for each byte
  -- and each interruption, and one to stop. The range that is written must end below 2 ^ 63.
  pub write_at_lem :
      (fuel : ℕ) (k : px.Kernel)
      → length bytes + w.patience k < fuel
      → ((write_at px fuel (some fd) bytes offset k).0 ≡ value (length bytes))
        × Stored size byte bytes offset
            (length bytes)
            k
            (write_at px fuel (some fd) bytes offset k).1
  unfolding write_at
  write_at_lem fuel k enough =
      write_loop_lem fuel 0 k k (omega arith) (Stored-none size byte bytes offset k) (omega arith)

-- ===== src/Transfer/Delivery/Disk.antt =====
-- The chunks of a file on the disk of its receiver (src/transfer/receiver_session.cpp).
use swiftlink.Common.{
  ℕ, ◌+◌, ◌-◌, ◌*◌, ◌/◌, ◌%◌, ◌^◌, ◌≤◌, ◌<◌, ◌≡◌, ◌≢◌, inl, inr, sym, ap, ◌∙◌, subst, arith, Bool,
  true, some, List, length, get_or, get_or-take, get_or-drop, drop, length-take, length-drop, max,
  ◌==◌, if◌then◌else◌, ℕ_discrete, dec_lt,
}
use native.Mathlib.Nat.{div-add-mod, mod-lt}
use swiftlink.Transfer.Chunks.{
  chunk_count, chunk_offset, chunk_want, chunk_bounds, chunk_count_covers,
}
use swiftlink.Transfer.Delivery.Sessions.{IsDisk, HasContent, HasChunk, HasChunks}
use swiftlink.Transfer.ReceiverWindow.Refine.{insert}
use swiftlink.Transfer.Sender.Send.Wires.{chunk_bytes}
use swiftlink.Transfer.Session.{Storage}

mul_le : (a b c : ℕ) → a ≤ b → a * c ≤ b * c
mul_le a b c h = grind arith

reached :
    (a b k want : ℕ) → k ≡ want → 0 < want → max a (if k == 0 then 0 else b + k) ≡ max a (b + want)
reached a b k want e h = ground (arith, e)

module _ (st : Storage) (size : st.Handle → st.Disk → ℕ) (byte : st.Handle → st.Disk → ℕ → ℕ)
    (disk : IsDisk st size byte) (content : List ℕ) (c total : ℕ)
    (fits : length content + c ≤ 2 ^ 64) (count : chunk_count (length content) c ≡ some total) where
  pub length-chunk_bytes :
      (n : ℕ) → n < total → length (chunk_bytes c content n) ≡ chunk_want (length content) n c
  length-chunk_bytes n lt =
      let (starts, some_bytes, most, ends) =
        chunk_bounds (length content) c total n fits count lt in
      let want = chunk_want (length content) n c in
      omega (
        arith,
        length-take want (drop (chunk_offset n c) content),
        length-drop (chunk_offset n c) content,
      )

  -- The size of the file behind the write of a chunk.
  size-write :
      (f : st.Handle) (d : st.Disk) (n : ℕ)
      → n < total
      → (st.write_at f (chunk_bytes c content n) (chunk_offset n c) d).0
        ≡ some (length (chunk_bytes c content n))
      → size f (st.write_at f (chunk_bytes c content n) (chunk_offset n c) d).1
        ≡ max (size f d) (chunk_offset n c + chunk_want (length content) n c)
  size-write f d n lt ok =
      let (starts, some_bytes, most, ends) =
        chunk_bounds (length content) c total n fits count lt in
      disk.extends f (chunk_bytes c content n) (chunk_offset n c) d ok
      ∙ reached (size f d) (chunk_offset n c) (length (chunk_bytes c content n))
          (chunk_want (length content) n c) (length-chunk_bytes n lt) some_bytes

  -- A chunk that is written is on the disk.
  writes_chunk :
      (f : st.Handle) (d : st.Disk) (n : ℕ)
      → n < total
      → (st.write_at f (chunk_bytes c content n) (chunk_offset n c) d).0
        ≡ some (length (chunk_bytes c content n))
      → HasChunk st size byte content c f
          (st.write_at f (chunk_bytes c content n) (chunk_offset n c) d).1
          n
  writes_chunk f d n lt ok =
      let (starts, some_bytes, most, ends) =
        chunk_bounds (length content) c total n fits count lt in
      let want = chunk_want (length content) n c in
      let full = length-chunk_bytes n lt in
      (
        omega (arith, size-write f d n lt ok),
        λ i h.
            disk.stores f (chunk_bytes c content n) (chunk_offset n c) i d ok (omega arith)
            ∙ get_or-take want i (drop (chunk_offset n c) content) 0 h
            ∙ get_or-drop (chunk_offset n c) i content 0,
      )

  -- And the others stay.
  keeps_chunk :
      (f : st.Handle) (d : st.Disk) (n m : ℕ)
      → n < total
      → m < total
      → m ≢ n
      → (st.write_at f (chunk_bytes c content n) (chunk_offset n c) d).0
        ≡ some (length (chunk_bytes c content n))
      → HasChunk st size byte content c f d m
      → HasChunk st size byte content c f
          (st.write_at f (chunk_bytes c content n) (chunk_offset n c) d).1
          m
  keeps_chunk f d n m lt below ne ok (within, has) =
      let (starts, some_bytes, most, ends) =
        chunk_bounds (length content) c total n fits count lt in
      let (starts', some_bytes', most', ends') =
        chunk_bounds (length content) c total m fits count below in
      let want = chunk_want (length content) n c in
      let full = length-chunk_bytes n lt in
      (
        omega (arith, within, size-write f d n lt ok),
        λ i h.
            disk.keeps f (chunk_bytes c content n) (chunk_offset n c) (chunk_offset m c + i) d ok
              (elim (dec_lt m n) [
                | yes before ↦ inl (omega (arith, mul_le (m + 1) n c (omega arith)))
                | no after ↦ inr (omega (arith, mul_le (n + 1) m c (omega arith)))
              ])
            ∙ has i h,
      )

  pub write-HasChunks :
      (seen : ℕ → Bool) (f : st.Handle) (d : st.Disk) (n : ℕ)
      → n < total
      → ((m : ℕ) → seen m ≡ true → m < total)
      → (st.write_at f (chunk_bytes c content n) (chunk_offset n c) d).0
        ≡ some (length (chunk_bytes c content n))
      → HasChunks st size byte content c seen f d
      → HasChunks st size byte content c
          (insert n seen)
          f
          (st.write_at f (chunk_bytes c content n) (chunk_offset n c) d).1
  write-HasChunks seen f d n lt bounded ok x = record {
    not_longer =
        let (starts, some_bytes, most, ends) =
          chunk_bounds (length content) c total n fits count lt in
        omega (arith, x.not_longer, ends, size-write f d n lt ok);
    has = λ m in_set. elim (ℕ_discrete m n) [
      | yes e ↦ subst (HasChunk st size byte content c f _) (sym e) (writes_chunk f d n lt ok)
      | no ne ↦
          let old : seen m ≡ true = ground (arith, in_set, ne) in
          keeps_chunk f d n m lt (bounded m old) ne ok (x.has m old)
    ];
  }

  -- With all the chunks the file has its content.
  pub HasChunks-HasContent :
      (seen : ℕ → Bool) (f : st.Handle) (d : st.Disk)
      → ((n : ℕ) → n < total → seen n ≡ true)
      → HasChunks st size byte content c seen f d
      → HasContent st size byte content f d
  HasChunks-HasContent seen f d all x = record {
    same_size =
        let (pos, short, covers, tight) = chunk_count_covers (length content) c total fits count in
        elim (dec_lt 0 total) [
          | no none_at_all ↦
              let zero : total ≡ 0 = omega arith in
              omega (arith, x.not_longer, covers, ap (λ k. k * c) zero)
          | yes some_chunk ↦
              let last : total - 1 < total = omega arith in
              let (starts, some_bytes, most, ends) =
                chunk_bounds (length content) c total (total - 1) fits count last in
              let (within, has) = x.has (total - 1) (all (total - 1) last) in
              let past : total - 1 + 1 ≡ total = omega arith in
              omega (arith, x.not_longer, within, ends, ap (λ k. k * c) past)
        ];
    same_bytes = λ i h.
        let n = i / c in
        let (pos, short, covers, tight) = chunk_count_covers (length content) c total fits count in
        let cut = div-add-mod i c in
        let rest = mod-lt i pos in
        let below : n < total = elim (dec_lt n total) [
          | yes lt ↦ lt
          | no ge ↦ absurd (omega (arith, mul_le total n c (omega arith)))
        ] in
        let (starts, some_bytes, most, ends) =
          chunk_bounds (length content) c total n fits count below in
        let (within, has) = x.has n (all n below) in
        let whole : chunk_offset n c + i % c ≡ i = omega arith in
        subst (λ k. byte f d k ≡ get_or content k 0) whole (has (i % c) (omega (arith, ends)));
  }

-- ===== src/Io/File/Reads.antt =====
-- `read_at` of src/io/file.cpp over a system that may read short and be interrupted.
use swiftlink.Common.{
  List-cases, ℕ, zero, suc, ◌+◌, ◌-◌, ◌%◌, ◌^◌, ◌≤◌, ◌<◌, ◌≡◌, ◌⊎◌, inl, inr, refl, sym, ap, subst,
  ◌∙◌, arith, true, false, some, List, [], ◌∷◌, ◌++◌, length, take, drop, length-take, length-drop,
  length-append, ltb, dec_lt, take_all, take_split, drop-drop, take-length-take,
}
use swiftlink.Common.Signed.{ℤ, pos, signed64, signed64-pos}
use swiftlink.Io.File.{Posix, read, read_interrupted, value, read_loop, read_at}

-- A call of pread is interrupted; or it gives bytes of the file from `offset` on, at least one unless
-- none is wanted or the offset is at the end, and no more than are wanted.
abbrev pub ReadsAt :
    (px : Posix) → px.Descriptor → List ℕ → (px.Kernel → ℕ) → ℕ → ℕ → ℤ → px.Kernel → Type 0
ReadsAt px fd content patience want offset at k =
    let call = px.pread fd want at k in
    ((call.0 ≡ read_interrupted) × (patience call.1 < patience k))
    ⊎ ((n : ℕ) × ((call.0 ≡ read (take n (drop offset content)))
          × ((n ≤ want) × ((patience call.1 ≤ patience k) × ((0 < want → 0 < n))))))

-- What pread(2) documents for a regular file on a device without errors, where the offset is not
-- negative and the range that is read ends below 2^63. Only so many calls are interrupted: `patience`
-- is left.
pub record Reads (px : Posix) (fd : px.Descriptor) (content : List ℕ) : Type 0 where
  pub patience : px.Kernel → ℕ
  pub call :
      (want offset : ℕ) (k : px.Kernel)
      → offset + want < 2 ^ 63
      → ReadsAt px fd content patience want offset (pos offset) k

module _ (px : Posix) (fd : px.Descriptor) (content : List ℕ) (r : Reads px fd content)
    (want offset : ℕ) (narrow : offset + want < 2 ^ 63) where
  -- the loop has read `out`, the front of what stands behind the offset
  abbrev Front : List ℕ → Type 0
  Front out = (length out ≤ want) × (out ≡ take (length out) (drop offset content))

  full-Front :
      (out : List ℕ) → Front out → want ≤ length out → out ≡ take want (drop offset content)
  full-Front out (le, e) ge =
      let same : length out ≡ want = omega arith in e ∙ ap (λ n. take n (drop offset content)) same

  more-Front :
      (out : List ℕ) (n : ℕ)
      → Front out
      → n ≤ want - length out
      → Front (out ++ take n (drop (offset + length out) content))
  more-Front out n (le, e) small =
      let bytes = take n (drop (offset + length out) content) in
      let joined : out ++ bytes ≡ take (length out + n) (drop offset content) =
        ap (λ x. x ++ bytes) e
        ∙ ap (λ x. take (length out) (drop offset content) ++ take n x)
            (sym (drop-drop offset (length out) content))
        ∙ take_split (length out) n (drop offset content) in
      (
        omega (arith, length-append out bytes, length-take n (drop (offset + length out) content)),
        joined
            ∙ sym (take-length-take (length out + n) (drop offset content))
            ∙ ap (λ x. take (length x) (drop offset content)) (sym joined),
      )

  at_end :
      (out : List ℕ) (n : ℕ)
      → Front out
      → 0 < n
      → take n (drop (offset + length out) content) ≡ []
      → out ≡ take want (drop offset content)
  at_end out n (le, e) some_wanted empty =
      let measured : length (take n (drop (offset + length out) content)) ≡ 0 = ap length empty in
      let over : length (drop offset content) ≤ length out = omega (
        arith,
        measured,
        length-take n (drop (offset + length out) content),
        length-drop (offset + length out) content,
        length-drop offset content,
      ) in
      e
      ∙ take_all (length out) (drop offset content) over
      ∙ sym (take_all want (drop offset content) (omega arith))

  -- One round, after the call.
  read_loop_lem :
      (fuel : ℕ) (out : List ℕ) (k : px.Kernel)
      → Front out
      → want - length out + r.patience k < fuel
      → (read_loop px fuel fd want offset out k).0 ≡ value (take want (drop offset content))
  unfolding read_loop
  read_loop_lem zero out k front enough = absurd (omega arith)
  read_loop_lem (suc fuel) out k front enough = elim (dec_lt (length out) want) [
    | no full ↦
        let stop : ltb (length out) want ≡ false = ground arith in
        rw stop (ap value (full-Front out front (omega arith)))
    | yes more ↦
        let go : ltb (length out) want ≡ true = ground arith in
        let at = signed64 ((offset + length out) % 2 ^ 64) in
        let here : at ≡ pos (offset + length out) =
          ap signed64 (omega arith) ∙ signed64-pos (offset + length out) (omega arith) in
        let call = px.pread fd (want - length out) at k in
        let reads : ReadsAt px fd content r.patience (want - length out) (offset + length out) at
            k =
          subst
            (λ o. ReadsAt px fd content r.patience (want - length out) (offset + length out) o k)
            (sym here) (r.call (want - length out) (offset + length out) k (omega arith)) in
        elim reads [
          | inl (e, less) ↦ rw (go, e) (read_loop_lem fuel out call.1 front (omega arith))
          | inr (n, (e, (small, (kept, positive)))) ↦
              elim (List-cases (take n (drop (offset + length out) content))) [
                | inl empty ↦
                    rw (go, e, empty) (ap value (at_end out n front (positive (omega arith)) empty))
                | inr (b, bs, some_bytes) ↦
                    let next : Front (out ++ (b ∷ bs)) =
                      subst (λ x. Front (out ++ x)) some_bytes (more-Front out n front small) in
                    rw (go, e, some_bytes)
                      (read_loop_lem fuel (out ++ (b ∷ bs)) call.1 next
                        (omega (arith, length-append out (b ∷ bs))))
              ]
        ]
  ]

  -- On a device without errors, `read_at` of an open file gives the bytes of the file from the offset
  -- on, as many as were wanted or up to the end, however short the reads of the system are and however
  -- often they are interrupted, with one round for each byte wanted and each interruption, and one to
  -- stop. The range that is read must end below 2 ^ 63.
  pub read_at_lem :
      (fuel : ℕ) (k : px.Kernel)
      → want + r.patience k < fuel
      → (read_at px fuel (some fd) want offset k).0 ≡ value (take want (drop offset content))
  unfolding read_at
  read_at_lem fuel k enough = read_loop_lem fuel [] k (omega arith, refl) (omega arith)

-- ===== src/Transfer/Sender/Send/Digest.antt =====
-- The digest that `hash_file` of src/transfer/sender.cpp computes.
use swiftlink.Common.{
  ℕ, zero, suc, ◌+◌, ◌-◌, ◌*◌, ◌/◌, ◌≤◌, ◌≡◌, refl, sym, ap, ◌∙◌, arith, true, false, some, List,
  ltb, ◌==◌, length, take, drop, min, length-take, length-drop, take_split, take_all, dec_lt,
}
use swiftlink.Crypto.Sha256.{new_hasher, update}
use swiftlink.Crypto.Sha256.Chunking.{update-append, update-none}
use swiftlink.Transfer.Sender.{Network}
use swiftlink.Transfer.Sender.Send.Loop.{hash_block, hash_from, hash_file}

-- A file that does not change while it is sent: its size and every read are those of `content`.
pub record IsFile (net : Network) (content : List ℕ) : Type 0 where
  pub size_known : (w : net.World) → (net.file_size w).0 ≡ some (length content)
  pub reads :
      (want offset : ℕ) (w : net.World)
      → (net.read_at want offset w).0 ≡ some (take want (drop offset content))

module _ (net : Network) (content : List ℕ) (file : IsFile net content) where
  hash_from_lem :
      (fuel offset : ℕ) (w : net.World)
      → offset ≤ length content
      → length content - offset + hash_block ≤ fuel * hash_block
      → (hash_from net fuel (length content) offset (update new_hasher (take offset content)) w).0
        ≡ some (update new_hasher (take (length content) content))
  unfolding hash_from
  hash_from_lem zero offset w h e = ground arith
  hash_from_lem (suc fuel) offset w h e = elim (dec_lt offset (length content)) [
    | no done ↦
        let end : length content ≡ offset = omega arith in
        let stop : ltb offset (length content) ≡ false = ground arith in rw (stop, end) refl
    | yes more ↦
        let want = min (length content - offset) hash_block in
        let go : ltb offset (length content) ≡ true = ground arith in
        let full : (length (take want (drop offset content)) == want) ≡ true =
          ground (arith, length-take want (drop offset content), length-drop offset content) in
        rw
          (
            go,
            file.reads want offset w,
            full,
            update-append new_hasher (take offset content) (take want (drop offset content))
                (omega arith),
            take_split offset want content,
          )
          (hash_from_lem fuel (offset + want) (net.read_at want offset w).1 (omega arith)
            (omega arith))
  ]

  -- The loop has the rounds it needs, and gives the SHA-256 of the file.
  pub hash_file_lem :
      (w : net.World) → (hash_file net (length content) w).0 ≡ some (update new_hasher content)
  hash_file_lem w =
      ap (λ h. (hash_from net (length content / hash_block + 2) (length content) 0 h w).0)
        (sym update-none)
      ∙ hash_from_lem (length content / hash_block + 2) 0 w (omega arith) (omega arith)
      ∙ ap (λ c. some (update new_hasher c)) (take_all (length content) content (omega arith))

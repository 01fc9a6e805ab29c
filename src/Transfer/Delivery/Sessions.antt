-- ===== src/Transfer/Delivery/Sessions.antt =====
-- What a session (src/transfer/receiver_session.cpp) that is sent the packets of one file has on its
-- disk.
use swiftlink.Common.{
  ℕ, ◌+◌, ◌≤◌, ◌<◌, ◌≡◌, ◌⊎◌, Bool, true, some, List, length, get_or, ◌==◌, if◌then◌else◌, max,
}
use swiftlink.Transfer.Chunks.{chunk_offset, chunk_want}
use swiftlink.Transfer.Session.{Storage}

-- A file system as far as the session relies on it: a file that is created is empty, a write that takes
-- all its bytes stores them and no other, and neither a flush nor a rename changes them.
pub record IsDisk (st : Storage) (size : st.Handle → st.Disk → ℕ)
    (byte : st.Handle → st.Disk → ℕ → ℕ) : Type 0 where
  pub creates :
      (path : List ℕ) (d : st.Disk) (f : st.Handle)
      → (st.open_write path d).0 ≡ some f
      → size f (st.open_write path d).1 ≡ 0
  pub extends :
      (f : st.Handle) (bytes : List ℕ) (offset : ℕ) (d : st.Disk)
      → (st.write_at f bytes offset d).0 ≡ some (length bytes)
      → size f (st.write_at f bytes offset d).1
        ≡ max (size f d) (if length bytes == 0 then 0 else offset + length bytes)
  pub stores :
      (f : st.Handle) (bytes : List ℕ) (offset i : ℕ) (d : st.Disk)
      → (st.write_at f bytes offset d).0 ≡ some (length bytes)
      → i < length bytes
      → byte f (st.write_at f bytes offset d).1 (offset + i) ≡ get_or bytes i 0
  pub keeps :
      (f : st.Handle) (bytes : List ℕ) (offset i : ℕ) (d : st.Disk)
      → (st.write_at f bytes offset d).0 ≡ some (length bytes)
      → (i < offset) ⊎ (offset + length bytes ≤ i)
      → byte f (st.write_at f bytes offset d).1 i ≡ byte f d i
  pub flushes :
      (f : st.Handle) (d : st.Disk)
      → (size f (st.sync f d).1 ≡ size f d) × ((i : ℕ) → byte f (st.sync f d).1 i ≡ byte f d i)
  pub renames :
      (f : st.Handle) (from to : List ℕ) (d : st.Disk)
      → (size f (st.rename from to d).1 ≡ size f d)
        × ((i : ℕ) → byte f (st.rename from to d).1 i ≡ byte f d i)

module _ (st : Storage) (size : st.Handle → st.Disk → ℕ) (byte : st.Handle → st.Disk → ℕ → ℕ)
    (content : List ℕ) where
  -- The file has exactly the content.
  pub record HasContent (f : st.Handle) (d : st.Disk) : Type 0 where
    pub same_size : size f d ≡ length content
    pub same_bytes : (i : ℕ) → i < length content → byte f d i ≡ get_or content i 0

  module _ (chunk_size : ℕ) where
    abbrev pub HasChunk : st.Handle → st.Disk → ℕ → Type 0
    HasChunk f d n =
        (chunk_offset n chunk_size + chunk_want (length content) n chunk_size ≤ size f d)
        × ((i : ℕ)
            → i < chunk_want (length content) n chunk_size
            → byte f d (chunk_offset n chunk_size + i)
              ≡ get_or content (chunk_offset n chunk_size + i) 0)

    -- The chunks of a set are on the disk.
    pub record HasChunks (seen : ℕ → Bool) (f : st.Handle) (d : st.Disk) : Type 0 where
      pub not_longer : size f d ≤ length content
      pub has : (n : ℕ) → seen n ≡ true → HasChunk f d n

-- ===== src/Transfer/Tests/Delivery.antt =====
-- A file on its way over a network that repeats, reorders and damages datagrams.
use swiftlink.Common.{
  sym, ◌≤◌, take, drop, dec_lt, ap₂, ℕ, zero, suc, ◌+◌, ◌-◌, ◌^◌, ◌<◌, ◌≡◌, ◌⊎◌, inl, inr, refl, ap,
  ◌∙◌, arith, Bool, true, false, ◌&&◌, some, List, [], ◌∷◌, length, get_or, max, ltb, leb, ◌==◌,
  if◌then◌else◌,
}
use swiftlink.Crypto.Sha256.{sha256, update, consume, finish, absorb, compress}
use swiftlink.Protocol.Crc.{crc32_excluding_checksum}
use swiftlink.Protocol.Packet.{
  is_valid_packet_type, same_type, DecodeError, failure, buffer_too_small,
}
use swiftlink.Protocol.Serializer.{serialize, deserialize, read_header}
use swiftlink.Transfer.Delivery.Clean.{IsWorking}
use swiftlink.Transfer.Delivery.Completed.{file_wires, completes}
use swiftlink.Transfer.Delivery.Delivered.{decoded, delivers}
use swiftlink.Transfer.Delivery.Packets.{IsSendable}
use swiftlink.Transfer.Delivery.Sessions.{IsDisk, HasContent}
use swiftlink.Transfer.Filename
use swiftlink.Transfer.Filename.{codes, sanitize_filename}
use swiftlink.Transfer.ReceiverWindow.{new_window, classify, mark_received, slide}
use swiftlink.Transfer.Sender.{send_packet}
use swiftlink.Transfer.Sender.Exchange.{
  exchange_control, attempts, attempt, await, on_bytes, on_reply, answers,
}
use swiftlink.Transfer.Sender.Send.{start_wire, chunk_wire, fin_wire, on_heard, acknowledge}
use swiftlink.Transfer.Sender.Send.Loop.{
  transfer, fill, send_chunk, listen, after_fill, retransmit_expired, retransmit, hash_from,
}
use swiftlink.Transfer.Sender.Send.File.{
  send_file, send_chunks, send_start, send_fin, start_verdict, fin_verdict,
}
use swiftlink.Transfer.Chunks.{chunk_count}
use swiftlink.Transfer.SenderWindow
use swiftlink.Transfer.SenderWindow.{
  can_send, in_flight, push, on_sent, on_ack, advance, earliest_deadline, prune, prune_timers,
  is_live, expire, expire_loop, disarm, reschedule,
}
use swiftlink.Transfer.SenderWindow.Timers.{Member}
use swiftlink.Transfer.Session.{
  Storage, new_session, handle_packet, on_active, on_start, after_sanitize, after_open, on_data,
  on_accepted, exceeds_declared, after_write, on_fin, after_sync, after_hash, after_rename,
}
use swiftlink.Transfer.Session
use swiftlink.Transfer.Session.Settled.{run}
use swiftlink.Transfer.Tests.Exchange.{
  abc, scripted, config, transferred, scripted-IsFile, two_chunks,
}

-- a file: its size, and each of its bytes
record Bytes : Type 0 where
  size : ℕ
  at : ℕ → ℕ

abbrev read_back : ℕ → ℕ → Bytes → List ℕ
read_back zero offset d = []
read_back (suc n) offset d =
    if ltb offset d.size then d.at offset ∷ read_back n (suc offset) d else []

abbrev overwrite : List ℕ → ℕ → Bytes → Bytes
overwrite bytes offset d = record {
  size = max d.size (if length bytes == 0 then 0 else offset + length bytes);
  at = λ i.
      if leb offset i && ltb i (offset + length bytes) then get_or bytes (i - offset) 0 else d.at i;
}

-- Every name is that of the one file.
abbrev flat : Storage
flat = record {
  Disk = Bytes;
  Handle = Bool;
  open_write = λ path d. (some true, record { size = 0; at = λ i. 0 });
  write_at = λ f bytes offset d. (some (length bytes), overwrite bytes offset d);
  read_at = λ f want offset d. some (read_back want offset d);
  sync = λ f d. (true, d);
  close = λ f d. d;
  rename = λ from to d. (true, d);
  unlink = λ path d. d;
}

flat-IsDisk : IsDisk flat (λ f d. d.size) (λ f d. d.at)
flat-IsDisk = record {
  creates = λ path d f e. refl;
  extends = λ f bytes offset d e. refl;
  stores = λ f bytes offset i d e h.
      let back : offset + i - offset ≡ i = omega arith in
      let within : (leb offset (offset + i) && ltb (offset + i) (offset + length bytes)) ≡ true =
        ground arith in
      rw (within, back) refl;
  keeps = λ f bytes offset i d e out.
      let outside : (leb offset i && ltb i (offset + length bytes)) ≡ false = ground (arith, out) in
      rw outside refl;
  flushes = λ f d. (refl, λ i. refl);
  renames = λ f from to d. (refl, λ i. refl);
}

config-IsSendable : IsSendable config abc 2
config-IsSendable = record {
  session_fits = omega arith;
  name_fits = omega arith;
  chunk_fits = omega arith;
  file_fits = omega arith;
  counted = two_chunks;
}

abbrev first : List ℕ
first = chunk_wire config 0 (97 ∷ 98 ∷ [])

abbrev second : List ℕ
second = chunk_wire config 1 (99 ∷ [])

abbrev opening : List ℕ
opening = start_wire config 3

abbrev closing : List ℕ
closing = fin_wire config 3 2 (sha256 abc)

-- the second chunk comes first, and twice, and a damaged datagram between
abbrev arrivals : List (List ℕ)
arrivals = opening ∷ second ∷ (1 ∷ []) ∷ first ∷ second ∷ closing ∷ []

abbrev empty_disk : Bytes
empty_disk = record { size = 0; at = λ i. 0 }

sent_all :
    (send_file scripted 9 9 config (codes "a") transferred).1.outbox
    ≡ closing ∷ second ∷ first ∷ opening ∷ []
unfolding exchange_control attempts attempt await on_bytes on_reply answers send_packet deserialize
    serialize read_header is_valid_packet_type crc32_excluding_checksum same_type send_file
    send_chunks send_start send_fin start_verdict fin_verdict transfer fill send_chunk listen
    after_fill retransmit_expired retransmit on_heard acknowledge chunk_count hash_from update
    consume finish absorb compress SenderWindow.new_window can_send in_flight push on_sent on_ack
    advance earliest_deadline prune prune_timers is_live expire expire_loop disarm reschedule sha256
sent_all = refl

damaged : deserialize (1 ∷ []) ≡ failure buffer_too_small
unfolding deserialize
damaged = refl

from :
    (bytes : List ℕ)
    → Member bytes arrivals
    → Member bytes (send_file scripted 9 9 config (codes "a") transferred).1.outbox
      ⊎ ((x : DecodeError) × (deserialize bytes ≡ failure x))
from bytes m = rw sent_all (sort bytes m)
  where
    sort :
        (bytes : List ℕ)
        → Member bytes arrivals
        → Member bytes (closing ∷ second ∷ first ∷ opening ∷ [])
          ⊎ ((x : DecodeError) × (deserialize bytes ≡ failure x))
    sort bytes (inl e) = inl (inr (inr (inr (inl e))))
    sort bytes (inr (inl e)) = inl (inr (inl e))
    sort bytes (inr (inr (inl e))) = inr (buffer_too_small, ap deserialize e ∙ damaged)
    sort bytes (inr (inr (inr (inl e)))) = inl (inr (inr (inl e)))
    sort bytes (inr (inr (inr (inr (inl e))))) = inl (inr (inl e))
    sort bytes (inr (inr (inr (inr (inr (inl e)))))) = inl (inl e)
    sort bytes (inr (inr (inr (inr (inr (inr m)))))) = absurd m

arrived : (run flat (new_session 4 (codes "out")) empty_disk (decoded arrivals)).0.published ≡ true
unfolding run decoded deserialize serialize read_header is_valid_packet_type
    crc32_excluding_checksum same_type handle_packet on_active on_start after_sanitize after_open
    on_data on_accepted exceeds_declared after_write on_fin after_sync after_hash after_rename
    Session.hash_from sanitize_filename new_window classify mark_received slide sha256 update
    consume finish absorb compress Filename.has_control Filename.is_control Filename.check_base
    Filename.base_name Filename.find_last_separator Filename.check_characters Filename.is_permitted
arrived = refl

spare_numbers : 2 + (new_window 4).capacity < 2 ^ 32
unfolding new_window
spare_numbers = omega arith

delivers_example :
    (f : Bool) × ((run flat (new_session 4 (codes "out")) empty_disk (decoded arrivals)).0.file
      ≡ some f)
    × HasContent flat
        (λ f d. d.size)
        (λ f d. d.at)
        abc
        f
        (run flat (new_session 4 (codes "out")) empty_disk (decoded arrivals)).1.0
delivers_example =
    delivers scripted config abc 2 9 9 (codes "a") transferred flat (λ f d. d.size) (λ f d. d.at) 4
      (codes "out") empty_disk arrivals scripted-IsFile config-IsSendable refl flat-IsDisk
      spare_numbers from arrived

read_back_lem :
    (want offset : ℕ) (content : List ℕ) (d : Bytes)
    → d.size ≡ length content
    → ((i : ℕ) → i < length content → d.at i ≡ get_or content i 0)
    → read_back want offset d ≡ take want (drop offset content)
read_back_lem zero offset content d sized same = refl
read_back_lem (suc want) offset content d sized same = elim (dec_lt offset (length content)) [
  | yes inside ↦
      let go : ltb offset d.size ≡ true = ground arith in
      let ih = read_back_lem want (suc offset) content d sized same in
      rw go (
        ap₂ ◌∷◌ (same offset inside) ih
        ∙ sym (ap (take (suc want)) (drop_first content offset inside)))
  | no past ↦
      let stop : ltb offset d.size ≡ false = ground arith in
      rw stop (sym (ap (take (suc want)) (drop_past content offset (omega arith))))
]
  where
    drop_first : (xs : List ℕ) (n : ℕ) → n < length xs → drop n xs ≡ get_or xs n 0 ∷ drop (suc n) xs
    drop_first [] n h = absurd (omega arith)
    drop_first (x ∷ xs) zero h = refl
    drop_first (x ∷ xs) (suc n) h = drop_first xs n (omega arith)

    drop_past : (xs : List ℕ) (n : ℕ) → length xs ≤ n → drop n xs ≡ []
    drop_past [] zero h = refl
    drop_past [] (suc n) h = refl
    drop_past (x ∷ xs) zero h = absurd (omega arith)
    drop_past (x ∷ xs) (suc n) h = drop_past xs n (omega arith)

flat-IsWorking : IsWorking flat (λ f d. d.size) (λ f d. d.at)
flat-IsWorking = record {
  opens = λ path d. (true, refl);
  writes = λ f bytes offset d. refl;
  reads = λ f content d x want offset.
      ap some (read_back_lem want offset content d x.same_size x.same_bytes);
  syncs = λ f d. refl;
  moves = λ from to d. refl;
}

accepted_name : sanitize_filename config.remote_name ≡ (Filename.accepted, codes "a")
unfolding sanitize_filename Filename.has_control Filename.is_control Filename.check_base
    Filename.base_name Filename.find_last_separator Filename.check_characters Filename.is_permitted
accepted_name = refl

completes_example :
    (run flat
      (new_session 4 (codes "out"))
      empty_disk
      (decoded (file_wires config abc 2))).0.published
    ≡ true
completes_example =
    completes flat (λ f d. d.size) (λ f d. d.at) config abc 2 4 (codes "out") (codes "a") empty_disk
      flat-IsDisk flat-IsWorking config-IsSendable spare_numbers accepted_name

-- ===== src/Transfer/Delivery/Stages.antt =====
-- A session (src/transfer/receiver_session.cpp) that gets the packets of one file, step by step.
use swiftlink.Common.{
  ℕ, ◌<◌, ◌≡◌, ◌⊎◌, inl, inr, sym, ◌∙◌, subst, arith, Bool, true, false, some, List, length,
}
use swiftlink.Protocol.Packet.{Packet, start, data', fin, same_type}
use swiftlink.Transfer.Delivery.Outcomes.{Fails, IsIdle}
use swiftlink.Transfer.Delivery.Sessions.{HasContent, HasChunks}
use swiftlink.Transfer.Delivery.Sums.{stored}
use swiftlink.Transfer.ReceiverWindow.Refine.{Tracks}
use swiftlink.Transfer.Sender.{SenderConfig}
use swiftlink.Transfer.Session.{
  Storage, Session, Outcome, fail, on_start, on_data, on_fin, on_active,
}
use swiftlink.Transfer.Stats.{TransferStats}

-- Where a packet of the file goes.
module _ (st : Storage) (s : Session st.Handle) (d : st.Disk) (p : Packet) where
  pub start-goes : p.header.packet_type ≡ start → on_active st s d p ≡ on_start st s d p
  unfolding on_active same_type
  start-goes e = ground arith

  pub data-goes :
      p.header.packet_type ≡ data'
      → Fails st s d (on_active st s d p)
        ⊎ ((s.started ≡ true) × (on_active st s d p ≡ on_data st s d p))
  unfolding on_active same_type fail
  data-goes e = ground arith

  pub fin-goes :
      p.header.packet_type ≡ fin
      → Fails st s d (on_active st s d p)
        ⊎ ((s.started ≡ true) × (on_active st s d p ≡ on_fin st s d p))
  unfolding on_active same_type fail
  fin-goes e = ground arith

module _ (st : Storage) (size : st.Handle → st.Disk → ℕ) (byte : st.Handle → st.Disk → ℕ → ℕ)
    (config : SenderConfig) (content : List ℕ) (total capacity : ℕ) where
  -- Before the START.
  pub record IsFresh (s : Session st.Handle) : Type 0 where
    pub active : s.finished ≡ false
    pub unpublished : s.published ≡ false
    pub not_started : s.started ≡ false
    pub sized : s.window.capacity ≡ capacity
    pub tracks : Tracks s.window (λ n. false)
    pub empty : s.bytes_written ≡ 0

  -- Some of the chunks have come, and are on the disk.
  pub record IsHolding (s : Session st.Handle) (d : st.Disk) : Type 0 where
    pub active : s.finished ≡ false
    pub unpublished : s.published ≡ false
    pub started : s.started ≡ true
    pub sized : s.window.capacity ≡ capacity
    pub handle : st.Handle
    pub opened : s.file ≡ some handle
    pub seen : ℕ → Bool
    pub tracks : Tracks s.window seen
    pub below : (n : ℕ) → seen n ≡ true → n < total
    pub counts : s.bytes_written ≡ stored (length content) config.chunk_size seen total
    pub on_disk : HasChunks st size byte content config.chunk_size seen handle d

  -- The file is there.
  pub record IsDelivered (s : Session st.Handle) (d : st.Disk) : Type 0 where
    pub over : s.finished ≡ true
    pub handle : st.Handle
    pub opened : s.file ≡ some handle
    pub delivered : HasContent st size byte content handle d

  abbrev pub Stage : Session st.Handle → st.Disk → Type 0
  Stage s d =
      ((s.finished ≡ true) × (s.published ≡ false))
      ⊎ (IsFresh s ⊎ (IsHolding s d ⊎ IsDelivered s d))

  -- The counters play no part.
  pub restat :
      (s : Session st.Handle) (d : st.Disk) (x : TransferStats)
      → Stage s d
      → Stage (record s { stats = x }) d
  restat s d x (inl over) = inl over
  restat s d x (inr (inl y)) = inr (
      inl (record {
        active = y.active;
        unpublished = y.unpublished;
        not_started = y.not_started;
        sized = y.sized;
        tracks = y.tracks;
        empty = y.empty;
      }))
  restat s d x (inr (inr (inl y))) = inr (
      inr (
        inl (record {
          active = y.active;
          unpublished = y.unpublished;
          started = y.started;
          sized = y.sized;
          handle = y.handle;
          opened = y.opened;
          seen = y.seen;
          tracks = y.tracks;
          below = y.below;
          counts = y.counts;
          on_disk = y.on_disk;
        })))
  restat s d x (inr (inr (inr y))) = inr (
      inr (
        inr (record {
          over = y.over;
          handle = y.handle;
          opened = y.opened;
          delivered = y.delivered;
        })))

  pub idle-Stage :
      (s : Session st.Handle) (d : st.Disk) (o : Outcome st.Handle st.Disk)
      → IsIdle st s d o
      → Stage s d
      → Stage o.session o.storage
  idle-Stage s d o ((x, e), same) g =
      subst (λ t. Stage t o.storage) (sym e) (subst (Stage _) (sym same) (restat s d x g))

  pub Fails-Stage :
      (s : Session st.Handle) (d : st.Disk) (o : Outcome st.Handle st.Disk)
      → Fails st s d o
      → s.published ≡ false
      → Stage o.session o.storage
  Fails-Stage s d o (over, same) e = inl (over, same ∙ e)

-- ===== src/Transfer/Receiver/Verdict.antt =====
-- What the success of `receive_file` (src/transfer/receiver.cpp) means.
use swiftlink.Common.{
  ℕ, ◌≡◌, ◌≢◌, ◌⊎◌, inl, inr, refl, sym, ap, subst, ◌∙◌, arith, Bool, true, false, Bool-cases, some,
  Option-cases, List, [], ◌∷◌,
}
use swiftlink.Net.UdpSocket.{Endpoint}
use swiftlink.Protocol.Packet.{Packet, DecodeResult-cases}
use swiftlink.Protocol.Serializer.{deserialize}
use swiftlink.Transfer.Receiver.{
  ReceiverConfig, Incoming, datagram, would_block, interrupted, failed, Reception, stop,
  after_packet, receive_loop, receive_file, at_return,
}
use swiftlink.Transfer.Session.{
  Storage, Session, Outcome, new_session, count_received, on_settled, on_data, on_accepted,
  after_write, fail, on_start, after_sanitize, after_open, on_fin, after_sync, after_hash,
  after_rename, handle_packet, on_active, abandon,
}
use swiftlink.Transfer.Filename.{join_path, temp_name}
use swiftlink.Transfer.Filename.Safety.{IsSafeName}
use swiftlink.Transfer.Session.Paths.{HasPaths, handle_packet-HasPaths}
use swiftlink.Transfer.Stats
use swiftlink.Transfer.Stats.{TransferError}

-- A session that is finished has published its file, or has an error; one that has published has started
-- before.
pub record HasVerdict {handle : Type 0} (s : Session handle) : Type 0 where
  pub settled : (s.finished ≡ true) → (s.published ≡ true) ⊎ (s.error_code ≢ Stats.none')
  pub begun : (s.published ≡ true) → s.started ≡ true

module _ (st : Storage) (s : Session st.Handle) (d : st.Disk) (p : Packet) where
  on_settled-HasVerdict : HasVerdict s → HasVerdict (on_settled st s d p).session
  unfolding on_settled
  on_settled-HasVerdict v = ground (arith, v)

  on_data-HasVerdict : HasVerdict s → HasVerdict (on_data st s d p).session
  unfolding on_data on_accepted after_write fail
  on_data-HasVerdict v = ground (arith, v)

  on_fin-HasVerdict : HasVerdict s → s.started ≡ true → HasVerdict (on_fin st s d p).session
  unfolding on_fin after_sync after_hash after_rename fail
  on_fin-HasVerdict v a = ground (arith, v)

  on_start-HasVerdict : HasVerdict s → s.finished ≡ false → HasVerdict (on_start st s d p).session
  unfolding on_start after_sanitize after_open fail
  on_start-HasVerdict v a = ground (arith, v)

  on_active-HasVerdict : HasVerdict s → s.finished ≡ false → HasVerdict (on_active st s d p).session
  unfolding on_active fail
  on_active-HasVerdict v a =
      let start_case = on_start-HasVerdict v a in
      let data_case = on_data-HasVerdict v in let fin_case = on_fin-HasVerdict v in ground arith

module _ (st : Storage) where
  handle_packet-HasVerdict :
      (s : Session st.Handle) (d : st.Disk) (p : Packet)
      → HasVerdict s
      → HasVerdict (handle_packet st s d p).session
  unfolding handle_packet
  handle_packet-HasVerdict s d p v =
      let counted = record s { stats = count_received s.stats } in
      let same : HasVerdict counted = record { settled = v.settled; begun = v.begun } in
      elim (Bool-cases s.finished) [
        | inl e ↦
            let run : on_settled st counted d p ≡ handle_packet st s d p = ground arith in
            subst (λ o. HasVerdict o.session) run (on_settled-HasVerdict st counted d p same)
        | inr e ↦
            let run : on_active st counted d p ≡ handle_packet st s d p = ground arith in
            subst (λ o. HasVerdict o.session) run (on_active-HasVerdict st counted d p same e)
      ]

-- What a session has to show for a success: the file is published under the output directory joined to
-- a safe name, and was written under the private name of the session in that directory.
pub record Received {handle : Type 0} (directory : List ℕ) (s : Session handle) : Type 0 where
  pub is_published : s.published ≡ true
  pub had_started : s.started ≡ true
  pub private_path : s.temp_path ≡ join_path directory (temp_name s.session_id)
  pub name : List ℕ
  pub safe : IsSafeName name
  pub public_path : s.output_path ≡ join_path directory name

receive_loop_stops :
    (st : Storage) (incoming : List Incoming) (s : Session st.Handle) (d : st.Disk)
    → s.finished ≡ true
    → receive_loop st incoming s d ≡ stop st s d (some s.error_code) []
unfolding receive_loop
receive_loop_stops st [] s d f = ground arith
receive_loop_stops st (would_block ∷ more) s d f = ground arith
receive_loop_stops st (failed ∷ more) s d f = ground arith
receive_loop_stops st (interrupted ∷ more) s d f = receive_loop_stops st more s d f
receive_loop_stops st (datagram peer bytes sendable ∷ more) s d f =
    elim (DecodeResult-cases (deserialize bytes)) [
      | inr (x, e) ↦ ground (arith, e)
      | inl (p, e) ↦ ground (arith, e)
    ]

after_packet_succeeds :
    (st : Storage) (peer : Endpoint) (sendable : Bool) (p : Packet) (o : Outcome st.Handle st.Disk)
    (later : Reception st.Handle st.Disk)
    → (after_packet st peer sendable p o later).result ≡ some Stats.none'
    → ((after_packet st peer sendable p o later).session ≡ later.session)
      × (later.result ≡ some Stats.none')
unfolding after_packet
after_packet_succeeds st peer sendable p o later r = ground arith

-- What each packet keeps, and gives once the session is finished without an error, holds when the loop
-- succeeds.
module _ (st : Storage) (Good Done : Session st.Handle → Type 0)
    (keeps : (s : Session st.Handle) (d : st.Disk) (p : Packet)
      → Good s
      → Good (handle_packet st s d p).session)
    (ends : (s : Session st.Handle)
      → Good s
      → s.finished ≡ true
      → s.error_code ≡ Stats.none'
      → Done s) where
  receive_loop-Done :
      (incoming : List Incoming) (s : Session st.Handle) (d : st.Disk)
      → Good s
      → (receive_loop st incoming s d).result ≡ some Stats.none'
      → Done (receive_loop st incoming s d).session
  unfolding receive_loop
  receive_loop-Done [] s d g r = let end = ends s g in ground arith
  receive_loop-Done (would_block ∷ more) s d g r = let end = ends s g in ground arith
  receive_loop-Done (failed ∷ more) s d g r = let end = ends s g in ground arith
  receive_loop-Done (interrupted ∷ more) s d g r = receive_loop-Done more s d g r
  receive_loop-Done (datagram peer bytes sendable ∷ more) s d g r =
      let end = ends s g in
      elim (Bool-cases s.finished) [
        | inl f ↦
            let same = receive_loop_stops st (datagram peer bytes sendable ∷ more) s d f in
            subst (λ x. Done x.session) (sym same)
              (end f (result (ap (λ x. x.result) (sym same) ∙ r)))
        | inr f ↦ elim (DecodeResult-cases (deserialize bytes)) [
          | inr (x, e) ↦
              let same : receive_loop st (datagram peer bytes sendable ∷ more) s d
                  ≡ receive_loop st more s d =
                ground (arith, e, f) in
              subst (λ x. Done x.session) (sym same)
                (receive_loop-Done more s d g (ap (λ x. x.result) (sym same) ∙ r))
          | inl (p, e) ↦
              let o = handle_packet st s d p in
              let later = receive_loop st more o.session o.storage in
              let same : receive_loop st (datagram peer bytes sendable ∷ more) s d
                  ≡ after_packet st peer sendable p o later =
                ground (arith, e, f) in
              let (session, succeeds) =
                after_packet_succeeds st peer sendable p o later
                  (ap (λ x. x.result) (sym same) ∙ r) in
              subst Done (sym (ap (λ x. x.session) same ∙ session))
                (receive_loop-Done more o.session o.storage (keeps s d p g) succeeds)
        ]
      ]
    where
      result : {x y : TransferError} → some x ≡ some y → x ≡ y
      result q = ground arith

verdict-Received :
    {handle : Type 0} (directory : List ℕ) (s : Session handle)
    → HasVerdict s × HasPaths directory s
    → s.finished ≡ true
    → s.error_code ≡ Stats.none'
    → Received directory s
verdict-Received directory s (v, (at, paths)) f e =
    let out : s.published ≡ true = ground (arith, v) in
    let (temporary, (name, (safe, path))) = paths (v.begun out) in
    record {
      is_published = out;
      had_started = v.begun out;
      private_path = temporary;
      name = name;
      safe = safe;
      public_path = path;
    }

-- The return keeps the result and the session, and deletes nothing of a session that has published.
at_return_lem :
    (st : Storage) (r : Reception st.Handle st.Disk)
    → ((at_return st r).result ≡ r.result)
      × (((at_return st r).session ≡ r.session)
          × (r.session.published ≡ true → (at_return st r).storage ≡ r.storage))
unfolding at_return abandon
at_return_lem st r = elim (Option-cases r.result) [
  | inl e ↦ ground (arith, e)
  | inr (x, e) ↦ ground (arith, e)
]

-- When the blocking receiver succeeds, its session has started and has published its file; the path that
-- it published the file under is the output directory joined to a safe name, and the path that it
-- wrote the file under is that directory joined to the private name of the session's id.
pub receive_file-Received :
    (st : Storage) (config : ReceiverConfig) (directory : List ℕ) (configured : Bool)
    (incoming : List Incoming) (d : st.Disk)
    → (receive_file st config directory configured incoming d).result ≡ some Stats.none'
    → Received directory (receive_file st config directory configured incoming d).session
unfolding receive_file
receive_file-Received st config directory true incoming d r =
    let s = new_session config.window_size directory in
    let (result, (session, storage)) = at_return_lem st (receive_loop st incoming s d) in
    subst (Received directory) (sym session) (
      receive_loop-Done st (λ s. HasVerdict s × HasPaths directory s) (Received directory)
        (λ s d p g.
          (handle_packet-HasVerdict st s d p g.0, handle_packet-HasPaths st directory s d p g.1))
        (verdict-Received directory) incoming s d
        (
          record { settled = λ f. absurd (ground arith); begun = λ f. absurd (ground arith) },
          (refl, λ f. absurd (ground arith)),
        )
        (sym result ∙ r))
receive_file-Received st config directory false incoming d r =
    let s = new_session config.window_size directory in
    let (result, rest) = at_return_lem st (stop st s d (some Stats.socket_failed) []) in
    absurd (failed_socket (sym result ∙ r))
  where
    failed_socket : some Stats.socket_failed ≡ some Stats.none' → ⊥
    failed_socket e = absurd (ground (arith, e))

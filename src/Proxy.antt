-- ===== src/Proxy.antt =====
-- tools/delay_proxy.cpp: a proxy between sender and server that delays, drops, reorders, repeats and
-- corrupts datagrams. What is decided about a datagram is given with it here; the generators that decide
-- are in Proxy/Random, the command line is in Proxy/Options. The sockets and the reports are left out. The priority queue is
-- a list in the order in which it pops.
pub mod Balance
pub mod Random
pub mod Options
pub mod Tests
use swiftlink.Common.{
  ℕ, zero, suc, ◌+◌, ◌*◌, ◌/◌, ◌-◌, ◌%◌, ◌^◌, bit_xor, Bool, true, false, not, ◌&&◌, ◌||◌, Option,
  none, some, List, [], ◌∷◌, ltb, leb, ◌==◌, if◌then◌else◌, get_or, set,
}

pub data Direction : Type 0 where
  both to_server to_client : Direction

pub record DirectionStats : Type 0 where
  pub received : ℕ
  pub forwarded : ℕ
  pub dropped : ℕ
  pub burst_dropped : ℕ
  pub duplicated : ℕ
  pub reordered : ℕ
  pub corrupted : ℕ

abbrev pub no_counts : DirectionStats
no_counts = record {
  received = 0;
  forwarded = 0;
  dropped = 0;
  burst_dropped = 0;
  duplicated = 0;
  reordered = 0;
  corrupted = 0;
}

-- `++counter` of a uint64_t
abbrev pub next : ℕ → ℕ
next counter = (counter + 1) % 2 ^ 64

pub record Pending : Type 0 where
  pub release : ℕ
  pub order : ℕ
  pub forward : Bool
  pub bytes : List ℕ

-- whether `a` pops before `b`; `b < a` of the code
unfoldable pub pops_before : Pending → Pending → Bool
pops_before a b = if a.release == b.release then ltb a.order b.order else ltb a.release b.release

unfoldable pub push : Pending → List Pending → List Pending
push item [] = item ∷ []
push item (e ∷ rest) = if pops_before item e then item ∷ e ∷ rest else e ∷ push item rest

-- `GilbertElliott::lost` in the bad state or the good one, with whether the draw crosses over
unfoldable pub burst_lost : Bool → Bool → Bool × Bool
burst_lost true crosses = (true, not crosses)
burst_lost false crosses = (false, crosses)

-- What the generators decide about a datagram, each a test that the probability is positive and the
-- draw below it: `burst` has a value if burst_loss is positive; `corrupt` is a byte and a bit of it. And
-- the readings of the clock.
pub record Draws : Type 0 where
  pub lost : Bool
  pub burst : Option Bool
  pub corrupt : Option (ℕ × ℕ)
  pub reordered : Bool
  pub duplicated : Bool
  pub arrived : ℕ
  pub queued : ℕ

pub record Proxy : Type 0 where
  pub queue : List Pending
  pub arrival_counter : ℕ
  pub server_stats : DirectionStats
  pub client_stats : DirectionStats
  pub server_bad : Bool
  pub client_bad : Bool
  pub client_known : Bool
  pub last_activity : ℕ

abbrev pub new_proxy : ℕ → Proxy
new_proxy now = record {
  queue = [];
  arrival_counter = 0;
  server_stats = no_counts;
  client_stats = no_counts;
  server_bad = false;
  client_bad = false;
  client_known = false;
  last_activity = now;
}

abbrev pub is_impaired : Direction → Bool → Bool
is_impaired both forward = true
is_impaired to_server forward = forward
is_impaired to_client forward = not forward

abbrev pub stats_of : Bool → Proxy → DirectionStats
stats_of forward p = if forward then p.server_stats else p.client_stats

abbrev pub with_stats : Bool → DirectionStats → Proxy → Proxy
with_stats forward s p =
    if forward then record p { server_stats = s } else record p { client_stats = s }

abbrev pub with_bad : Bool → Bool → Proxy → Proxy
with_bad forward bad p =
    if forward then record p { server_bad = bad } else record p { client_bad = bad }

-- one bit of the datagram, if it is to be corrupted
unfoldable pub corrupted_bytes : Option (ℕ × ℕ) → List ℕ → List ℕ
corrupted_bytes none bytes = bytes
corrupted_bytes (some (index, bit)) [] = []
corrupted_bytes (some (index, bit)) (b ∷ bs) =
    set (b ∷ bs) index (bit_xor (get_or (b ∷ bs) index 0) (2 ^ bit))

abbrev pub is_corrupted : Option (ℕ × ℕ) → List ℕ → Bool
is_corrupted none bytes = false
is_corrupted (some pick) [] = false
is_corrupted (some pick) (b ∷ bs) = true

abbrev pub enqueue : ℕ → Bool → List ℕ → Proxy → Proxy
enqueue release forward bytes p = record p {
  queue =
      push
        (record { release = release; order = p.arrival_counter; forward = forward; bytes = bytes })
        p.queue;
  arrival_counter = next p.arrival_counter;
}

-- `accept` for a datagram that is not dropped
unfoldable pub forward_later : ℕ → Bool → Bool → List ℕ → Draws → Proxy → Proxy
forward_later delay impaired forward bytes x p =
    let broken = impaired && is_corrupted x.corrupt bytes in
    let jumps = impaired && x.reordered in
    let twice = impaired && x.duplicated in
    let payload = if impaired then corrupted_bytes x.corrupt bytes else bytes in
    let release = if jumps then x.queued else x.queued + delay in
    let s = stats_of forward p in
    let counted = record s {
      corrupted = if broken then next s.corrupted else s.corrupted;
      reordered = if jumps then next s.reordered else s.reordered;
      duplicated = if twice then next s.duplicated else s.duplicated;
    } in
    let once = enqueue release forward payload (with_stats forward counted p) in
    if twice then enqueue release forward payload once else once

abbrev pub drop_one : Bool → Proxy → Proxy
drop_one forward p =
    let s = stats_of forward p in with_stats forward (record s { dropped = next s.dropped }) p

abbrev pub drop_in_burst : Bool → Proxy → Proxy
drop_in_burst forward p =
    let s = stats_of forward p in
    with_stats forward (record s { dropped = next s.dropped; burst_dropped = next s.burst_dropped })
      p

unfoldable pub after_loss : ℕ → Bool → Bool → List ℕ → Draws → Proxy → Proxy
after_loss delay impaired forward bytes x p =
    let bad = if forward then p.server_bad else p.client_bad in
    elim x.burst [
      | none ↦ forward_later delay impaired forward bytes x p
      | some crosses ↦
          let r = burst_lost bad crosses in
          let moved = with_bad forward r.1 p in
          if not impaired
          then forward_later delay impaired forward bytes x p
          else if r.0
          then drop_in_burst forward moved
          else forward_later delay impaired forward bytes x moved
    ]

unfoldable pub accept : Direction → ℕ → Bool → List ℕ → Draws → Proxy → Proxy
accept direction delay forward bytes x p =
    let s = stats_of forward p in
    let arrived =
      with_stats forward (record s { received = next s.received })
        (record p { last_activity = x.arrived }) in
    let impaired = is_impaired direction forward in
    if impaired && x.lost
    then drop_one forward arrived
    else after_loss delay impaired forward bytes x arrived

-- The loop that releases what is due; what goes to an unknown client is thrown away.
unfoldable pub release_due : ℕ → List Pending → Proxy → List (Bool × List ℕ) × Proxy
release_due now [] p = ([], record p { queue = [] })
release_due now (item ∷ rest) p =
    let s = p.server_stats in
    let c = p.client_stats in
    let sent =
      if item.forward
      then record p { server_stats = record s { forwarded = next s.forwarded } }
      else if p.client_known
      then record p { client_stats = record c { forwarded = next c.forwarded } }
      else p in
    let later = release_due now rest sent in
    if leb item.release now
    then (
      if item.forward || p.client_known then (item.forward, item.bytes) ∷ later.0 else later.0,
      later.1,
    )
    else ([], record p { queue = item ∷ rest })

-- How long ppoll may sleep, in seconds and nanoseconds: until the first datagram is due, or a second.
unfoldable pub poll_timeout : ℕ → List Pending → ℕ × ℕ
poll_timeout now [] = (1, 0)
poll_timeout now (item ∷ rest) =
    let wait = item.release - now in (wait / 1000000000, wait % 1000000000)

-- A round of the main loop: what the two sockets gave, and the times of the release and of the test
-- whether the proxy is idle.
pub record Round : Type 0 where
  pub from_client : Option (List ℕ × Draws)
  pub from_server : Option (List ℕ × Draws)
  pub now : ℕ
  pub checked : ℕ

unfoldable pub take_client : Direction → ℕ → Option (List ℕ × Draws) → Proxy → Proxy
take_client direction delay none p = p
take_client direction delay (some (bytes, x)) p =
    accept direction delay true bytes x (record p { client_known = true })

unfoldable pub take_server : Direction → ℕ → Option (List ℕ × Draws) → Proxy → Proxy
take_server direction delay none p = p
take_server direction delay (some (bytes, x)) p = accept direction delay false bytes x p

unfoldable pub round : Direction → ℕ → Round → Proxy → List (Bool × List ℕ) × Proxy
round direction delay r p =
    let p1 = take_client direction delay r.from_client p in
    let p2 = take_server direction delay r.from_server p1 in release_due r.now p2.queue p2

-- The main loop over the rounds, until it has been idle for too long, in milliseconds.
unfoldable pub run : Direction → ℕ → ℕ → List Round → Proxy → Proxy
run direction delay idle_exit [] p = p
run direction delay idle_exit (r ∷ rest) p =
    let p' = (round direction delay r p).1 in
    let later = run direction delay idle_exit rest p' in
    elim p'.queue [
      | [] ↦ if ltb idle_exit ((r.checked - p'.last_activity) / 1000000) then p' else later
      | item ∷ more ↦ later
    ]

-- ===== src/Proxy/Balance.antt =====
-- No datagram gets lost in tools/delay_proxy.cpp but those that it counts as dropped.
use swiftlink.Common.{
  ℕ, ◌+◌, ◌/◌, ◌-◌, ◌%◌, ◌^◌, ◌≡◌, inl, inr, refl, arith, Bool, true, false, ◌&&◌, Bool-cases,
  Option, none, some, Option-cases, List, [], ◌∷◌, List-cases, ltb, leb, if◌then◌else◌,
}
use swiftlink.Proxy.{
  next, is_impaired, Direction, Draws, Pending, Proxy, Round, push, new_proxy, burst_lost,
  corrupted_bytes, forward_later, after_loss, accept, release_due, take_client, take_server, round,
  run,
}

-- the datagrams to the server that wait
pub waiting : List Pending → ℕ
waiting [] = 0
waiting (item ∷ rest) = let more = waiting rest in if item.forward then more + 1 else more

waiting-push :
    (item : Pending) (queue : List Pending)
    → waiting (push item queue) ≡ (if item.forward then waiting queue + 1 else waiting queue)
unfolding push waiting
waiting-push item [] = ground arith
waiting-push item (e ∷ rest) = let later = waiting-push item rest in ground arith

-- What came from the client, with the second copies, has been dropped, forwarded, or waits.
pub record IsBalanced (p : Proxy) : Type 0 where
  pub balance :
      (p.server_stats.received + p.server_stats.duplicated) % 2 ^ 64
      ≡ (p.server_stats.dropped + p.server_stats.forwarded + waiting p.queue) % 2 ^ 64

-- A datagram that is not dropped: it waits, and so does its copy.
forward_later_server :
    (delay : ℕ) (impaired : Bool) (bytes : List ℕ) (x : Draws) (p : Proxy)
    → let q = forward_later delay impaired true bytes x p in
      (q.server_stats.received ≡ p.server_stats.received)
      × (q.server_stats.dropped ≡ p.server_stats.dropped)
      × (q.server_stats.forwarded ≡ p.server_stats.forwarded)
      × ((q.server_stats.duplicated + waiting p.queue + 1) % 2 ^ 64
          ≡ (p.server_stats.duplicated + waiting q.queue) % 2 ^ 64)
unfolding forward_later
forward_later_server delay impaired bytes x p =
    let payload = if impaired then corrupted_bytes x.corrupt bytes else bytes in
    let release = if impaired && x.reordered then x.queued else x.queued + delay in
    let item : ℕ → Pending =
      λ n. record { release = release; order = n; forward = true; bytes = payload } in
    let once = waiting-push (item p.arrival_counter) p.queue in
    let twice =
      waiting-push (item ((p.arrival_counter + 1) % 2 ^ 64))
        (push (item p.arrival_counter) p.queue) in
    ground arith

forward_later_client :
    (delay : ℕ) (impaired : Bool) (bytes : List ℕ) (x : Draws) (p : Proxy)
    → let q = forward_later delay impaired false bytes x p in
      (q.server_stats ≡ p.server_stats) × (waiting q.queue ≡ waiting p.queue)
unfolding forward_later
forward_later_client delay impaired bytes x p =
    let payload = if impaired then corrupted_bytes x.corrupt bytes else bytes in
    let release = if impaired && x.reordered then x.queued else x.queued + delay in
    let item : ℕ → Pending =
      λ n. record { release = release; order = n; forward = false; bytes = payload } in
    let once = waiting-push (item p.arrival_counter) p.queue in
    let twice =
      waiting-push (item ((p.arrival_counter + 1) % 2 ^ 64))
        (push (item p.arrival_counter) p.queue) in
    ground arith

-- One more has come from the client than is accounted for.
record Owes (p : Proxy) : Type 0 where
  owed :
      (p.server_stats.received + p.server_stats.duplicated) % 2 ^ 64
      ≡ (p.server_stats.dropped + p.server_stats.forwarded + waiting p.queue + 1) % 2 ^ 64

forward_later-IsBalanced :
    (delay : ℕ) (impaired : Bool) (bytes : List ℕ) (x : Draws) (p : Proxy)
    → Owes p
    → IsBalanced (forward_later delay impaired true bytes x p)
forward_later-IsBalanced delay impaired bytes x p o =
    let (received, dropped, forwarded, queued) = forward_later_server delay impaired bytes x p in
    let owed = o.owed in
    record { balance = rw (received, dropped, forwarded) (omega (arith, queued, owed)) }

after_loss-IsBalanced :
    (delay : ℕ) (impaired : Bool) (bytes : List ℕ) (x : Draws) (p : Proxy)
    → Owes p
    → IsBalanced (after_loss delay impaired true bytes x p)
unfolding after_loss
after_loss-IsBalanced delay impaired bytes x p o = elim (Option-cases x.burst) [
  | inl off ↦ rw (after_loss, off) (forward_later-IsBalanced delay impaired bytes x p o)
  | inr (crosses, on) ↦ elim (Bool-cases impaired) [
    | inr clean ↦ rw (after_loss, on, clean) (forward_later-IsBalanced delay false bytes x p o)
    | inl impairs ↦
        let r = burst_lost p.server_bad crosses in
        let moved = record p { server_bad = r.1 } in
        let owes : Owes moved = record { owed = o.owed } in
        let owed = o.owed in
        elim (Bool-cases r.0) [
          | inl gone ↦ rw (after_loss, on, impairs, gone) (record { balance = omega arith })
          | inr kept ↦
              rw (after_loss, on, impairs, kept)
                (forward_later-IsBalanced delay true bytes x moved owes)
        ]
  ]
]

accept_server-IsBalanced :
    (direction : Direction) (delay : ℕ) (bytes : List ℕ) (x : Draws) (p : Proxy)
    → IsBalanced p
    → IsBalanced (accept direction delay true bytes x p)
unfolding accept
accept_server-IsBalanced direction delay bytes x p b =
    let s = p.server_stats in
    let arrived = record p {
      server_stats = record s { received = next s.received };
      last_activity = x.arrived;
    } in
    let balance = b.balance in
    let owes : Owes arrived = record { owed = omega arith } in
    elim (Bool-cases (is_impaired direction true && x.lost)) [
      | inl gone ↦ rw (accept, gone) (record { balance = omega arith })
      | inr kept ↦
          rw (accept, kept)
            (after_loss-IsBalanced delay (is_impaired direction true) bytes x arrived owes)
    ]

accept_client_lem :
    (direction : Direction) (delay : ℕ) (bytes : List ℕ) (x : Draws) (p : Proxy)
    → ((accept direction delay false bytes x p).server_stats ≡ p.server_stats)
      × (waiting (accept direction delay false bytes x p).queue ≡ waiting p.queue)
unfolding accept after_loss
accept_client_lem direction delay bytes x p =
    let c = p.client_stats in
    let arrived = record p {
      client_stats = record c { received = next c.received };
      last_activity = x.arrived;
    } in
    let impaired = is_impaired direction false in
    let straight = forward_later_client delay impaired bytes x arrived in
    elim (Bool-cases (impaired && x.lost)) [
      | inl gone ↦ rw (accept, gone) (refl, refl)
      | inr kept ↦ elim (Option-cases x.burst) [
        | inl off ↦ rw (accept, kept, after_loss, off) straight
        | inr (crosses, on) ↦
            let r = burst_lost p.client_bad crosses in
            let moved =
              forward_later_client delay impaired bytes x (record arrived { client_bad = r.1 }) in
            elim (Bool-cases impaired) [
              | inr clean ↦ rw (accept, kept, after_loss, on, clean) (rw clean at straight)
              | inl impairs ↦ elim (Bool-cases r.0) [
                | inl gone ↦ rw (accept, kept, after_loss, on, impairs, gone) (refl, refl)
                | inr passes ↦
                    rw (accept, kept, after_loss, on, impairs, passes) (rw impairs at moved)
              ]
            ]
      ]
    ]

accept_client-IsBalanced :
    (direction : Direction) (delay : ℕ) (bytes : List ℕ) (x : Draws) (p : Proxy)
    → IsBalanced p
    → IsBalanced (accept direction delay false bytes x p)
accept_client-IsBalanced direction delay bytes x p b =
    let (stats, queued) = accept_client_lem direction delay bytes x p in
    record { balance = rw (stats, queued) b.balance }

release_due-IsBalanced :
    (now : ℕ) (queue : List Pending) (p : Proxy)
    → IsBalanced (record p { queue = queue })
    → IsBalanced (release_due now queue p).1
unfolding release_due waiting
release_due-IsBalanced now [] p b = record { balance = b.balance }
release_due-IsBalanced now (item ∷ rest) p b =
    let balance = b.balance in
    let s = p.server_stats in
    let c = p.client_stats in
    let sent =
      if item.forward
      then record p { server_stats = record s { forwarded = next s.forwarded } }
      else if p.client_known
      then record p { client_stats = record c { forwarded = next c.forwarded } }
      else p in
    let passed : (sent.server_stats.received + sent.server_stats.duplicated) % 2 ^ 64
        ≡ (sent.server_stats.dropped + sent.server_stats.forwarded + waiting rest) % 2 ^ 64 =
      ground arith in
    let ih = release_due-IsBalanced now rest sent (record { balance = passed }) in
    elim (Bool-cases (leb item.release now)) [
      | inr early ↦ rw (release_due, early) (record { balance = b.balance })
      | inl due ↦ rw (release_due, due) ih
    ]

take_client-IsBalanced :
    (direction : Direction) (delay : ℕ) (x : Option (List ℕ × Draws)) (p : Proxy)
    → IsBalanced p
    → IsBalanced (take_client direction delay x p)
unfolding take_client
take_client-IsBalanced direction delay none p b = b
take_client-IsBalanced direction delay (some (bytes, x)) p b =
    accept_server-IsBalanced direction delay bytes x (record p { client_known = true })
      (record { balance = b.balance })

take_server-IsBalanced :
    (direction : Direction) (delay : ℕ) (x : Option (List ℕ × Draws)) (p : Proxy)
    → IsBalanced p
    → IsBalanced (take_server direction delay x p)
unfolding take_server
take_server-IsBalanced direction delay none p b = b
take_server-IsBalanced direction delay (some (bytes, x)) p b =
    accept_client-IsBalanced direction delay bytes x p b

round-IsBalanced :
    (direction : Direction) (delay : ℕ) (r : Round) (p : Proxy)
    → IsBalanced p
    → IsBalanced (round direction delay r p).1
unfolding round
round-IsBalanced direction delay r p b =
    let p1 = take_client direction delay r.from_client p in
    let p2 = take_server direction delay r.from_server p1 in
    let taken =
      take_server-IsBalanced direction delay r.from_server p1
        (take_client-IsBalanced direction delay r.from_client p b) in
    release_due-IsBalanced r.now p2.queue p2 (record { balance = taken.balance })

run-IsBalanced :
    (direction : Direction) (delay idle_exit : ℕ) (rounds : List Round) (p : Proxy)
    → IsBalanced p
    → IsBalanced (run direction delay idle_exit rounds p)
unfolding run
run-IsBalanced direction delay idle_exit [] p b = b
run-IsBalanced direction delay idle_exit (r ∷ rest) p b =
    let p' = (round direction delay r p).1 in
    let one = round-IsBalanced direction delay r p b in
    let later = run-IsBalanced direction delay idle_exit rest p' one in
    elim (List-cases p'.queue) [
      | inr (item, more, e) ↦ rw (run, e) later
      | inl idle ↦ elim (Bool-cases (ltb idle_exit ((r.checked - p'.last_activity) / 1000000))) [
        | inl ends ↦ rw (run, idle, ends) one
        | inr goes_on ↦ rw (run, idle, goes_on) later
      ]
    ]

-- Whatever the generators decide and however the datagrams come, each one that came from the client, and
-- each second copy, has been dropped and counted as dropped, has been forwarded to the server, or waits
-- in the queue. The counters are compared modulo 2 ^ 64.
pub run_balances :
    (direction : Direction) (delay idle_exit start : ℕ) (rounds : List Round)
    → IsBalanced (run direction delay idle_exit rounds (new_proxy start))
unfolding waiting
run_balances direction delay idle_exit start rounds =
    run-IsBalanced direction delay idle_exit rounds (new_proxy start) (record { balance = refl })

-- ===== src/StressTest/Worker/Ends.antt =====
-- The loop of a thread ends, and its statistics agree.
use iocpserver.Prelude.{
  ℕ, zero, suc, ◌+◌, ◌%◌, ◌^◌, ◌≤◌, ◌<◌, ◌≡◌, inl, inr, Bool, true, false, some, List, [], ◌∷◌,
  ◌++◌, length, length-append, length-replicate, replicate, Bool-cases, ltb, ltb→lt, arith,
}
use iocpserver.Packet.Structs.{le_bytes, length-le_bytes}
use iocpserver.Packet.Header.{header}
use iocpserver.StressTest.{Proto, raw, len_prefixed, packet}
use iocpserver.StressTest.Socket.{Net, IsNet}
use iocpserver.StressTest.Exchange.{make_buffer}
use iocpserver.StressTest.Exchange.Buffer.{make_buffer-packet}
use iocpserver.StressTest.Worker.{
  Stats, Clock, Run, count, ask, serve, serve_all, worker_loop, run_worker,
}
use iocpserver.StressTest.Worker.Exchanges.{
  Gives, gives, next_result, copy_in-Gives, IsBuffer, exchange-Gives,
}

-- A round trip is kept for each exchange that is counted as good.
unfoldable pub IsCounted : Stats → Type 0
IsCounted st = st.ok ≡ length st.rtts % 2 ^ 64

count-IsCounted : (b : Bool) (ms : ℕ) (st : Stats) → IsCounted st → IsCounted (count b ms st)
unfolding IsCounted count
count-IsCounted true ms st h = omega (arith, h, length-append st.rtts (ms ∷ []))
count-IsCounted false ms st h = h

-- A packet carries less than 65,532 bytes; the other two carry what they are given.
unfoldable pub Fits : Proto → List ℕ → Type 0
Fits raw payload = Unit {0}
Fits len_prefixed payload = Unit {0}
Fits packet payload = 4 + length payload < 2 ^ 16

module _ (net : Net) (ok : IsNet net) (clock : Clock) (proto : Proto) (payload : List ℕ) where
  record Going (least : ℕ) (r : Run) : Type 0 where
    buffered : IsBuffer proto payload r.buffer
    counted : IsCounted r.stats
    later : least ≤ r.asked

  serve-Gives :
      (p least : ℕ) (r : Run)
      → Going least r
      → Gives (Going least) (serve net clock proto payload p r)
  unfolding serve
  serve-Gives p least r g =
      next_result (exchange-Gives net ok proto payload r.buffer (r.socket p) g.buffered) (λ x b.
        gives _ (record {
          buffered = b;
          counted = count-IsCounted x.1.0 (clock.elapsed r.asked) r.stats g.counted;
          later = g.later;
        }))

  asked_too : {least : ℕ} {r : Run} → Going least r → Going (suc least) (ask r)
  asked_too g = record {
    buffered = g.buffered;
    counted = g.counted;
    later = omega (arith, g.later);
  }

  sooner : {least : ℕ} {r : Run} → Going (suc least) r → Going least r
  sooner g = record { buffered = g.buffered; counted = g.counted; later = omega (arith, g.later) }

  any_time : {least : ℕ} {r : Run} → Going least r → Going 0 r
  any_time g = record { buffered = g.buffered; counted = g.counted; later = omega arith }

  serve_all-Gives :
      (sockets : List ℕ) (least : ℕ) (r : Run)
      → Going least r
      → Gives (Going least) (serve_all net clock proto payload sockets r)
  unfolding serve_all
  serve_all-Gives [] least r g = gives r g
  serve_all-Gives (p ∷ sockets) least r g = elim (Bool-cases (clock.stop_requested r.asked)) [
    | inl stopped ↦ rw stopped (gives (ask r) (sooner (asked_too g)))
    | inr goes ↦ rw goes (
        next_result (serve-Gives p least (ask r) (sooner (asked_too g))) (λ q h.
          elim (Bool-cases (clock.is_over q.asked)) [
            | inl late ↦ rw late (gives (ask q) (sooner (asked_too h)))
            | inr early ↦ rw early (serve_all-Gives sockets least (ask q) (sooner (asked_too h)))
          ]))
  ]

  late_enough :
      (end : ℕ)
      → ((k : ℕ) → end ≤ k → clock.is_over k ≡ true)
      → (k : ℕ) → clock.is_over k ≡ false
      → k < end
  late_enough end over k h = elim (Bool-cases (ltb k end)) [
    | inl before ↦ ltb→lt k end before
    | inr after ↦ absurd (cc (over k (ltb-false k end after), h))
  ]
    where
      ltb-false : (a b : ℕ) → ltb a b ≡ false → b ≤ a
      ltb-false a b h = ground arith

  module _ (end : ℕ) (over : (k : ℕ) → end ≤ k → clock.is_over k ≡ true) (sockets : List ℕ) where
    -- Every round asks twice at least.
    worker_round :
        (fuel least : ℕ) (r : Run)
        → end ≤ suc fuel + least
        → Going least r
        → (0 < fuel
            → (q : Run) → Going (suc (suc least)) q
            → Gives (Going 0) (worker_loop net clock proto payload fuel sockets q))
        → Gives (Going 0) (worker_loop net clock proto payload (suc fuel) sockets r)
    unfolding worker_loop
    worker_round fuel least r h g again = elim (Bool-cases (clock.stop_requested r.asked)) [
      | inl stopped ↦ rw stopped (gives (ask r) (any_time (asked_too g)))
      | inr goes ↦ elim (Bool-cases (clock.is_over (r.asked + 1))) [
        | inl late ↦ rw (goes, late) (gives (ask (ask r)) (any_time (asked_too (asked_too g))))
        | inr early ↦
            let before = late_enough end over (r.asked + 1) early in
            rw (goes, early)
              (next_result
                (serve_all-Gives sockets (suc (suc least)) (ask (ask r)) (asked_too (asked_too g)))
                (again (omega (arith, before, g.later, h))))
      ]
    ]

    worker_loop-Gives :
        (fuel least : ℕ) (r : Run)
        → end ≤ suc fuel + least
        → Going least r
        → Gives (Going 0) (worker_loop net clock proto payload (suc fuel) sockets r)
    worker_loop-Gives zero least r h g =
        worker_round zero least r h g (λ none_left. absurd (omega (arith, none_left)))
    worker_loop-Gives (suc fuel) least r h g =
        worker_round (suc fuel) least r h g
          (λ left q later. worker_loop-Gives fuel (suc (suc least)) q (omega arith) later)

make_buffer-Gives :
    (proto : Proto) (payload : List ℕ) (id : ℕ)
    → Fits proto payload
    → Gives (IsBuffer proto payload) (make_buffer proto payload id)
unfolding make_buffer IsBuffer Fits
make_buffer-Gives raw payload id h = gives [] tt
make_buffer-Gives len_prefixed payload id h =
    next_result
      (copy_in-Gives (replicate (4 + length payload) 0) 0 (le_bytes 4 (length payload)) 4
        (omega (arith, zeros)) (omega (arith, length-le_bytes 4 (length payload))))
      (λ buf kept.
        let g =
          copy_in-Gives buf 4 payload (length payload) (omega (arith, zeros, kept)) (omega arith) in
        record { value = g.value; returns = g.returns; holds = tt })
  where
    zeros : length (replicate {A = ℕ} (4 + length payload) 0) ≡ 4 + length payload
    zeros = length-replicate (4 + length payload) 0
make_buffer-Gives packet payload id h = record {
  value = header (4 + length payload) id ++ replicate (length payload) 0;
  returns = make_buffer-packet payload id h;
  holds =
      (unfold header in
        omega (
          arith,
          length-append (header (4 + length payload) id) (replicate (length payload) 0),
          length-replicate {A = ℕ} (length payload) 0,
        ));
}

-- A thread whose clock passes its end, with a payload that the protocol carries, and whatever the
-- peers send: WorkerLoop returns, it writes nowhere but in its buffer, and the good exchanges it
-- counted are as many as the round trips it kept (modulo 2 ^ 64).
pub run_worker_ends :
    (net : Net) (clock : Clock) (proto : Proto) (payload : List ℕ) (end id : ℕ) (sockets : List ℕ)
    (r : Run)
    → IsNet net
    → ((k : ℕ) → end ≤ k → clock.is_over k ≡ true)
    → Fits proto payload
    → IsCounted r.stats
    → (q : Run) × (run_worker net clock proto payload (suc end) id sockets r ≡ some q)
      × IsCounted q.stats
unfolding run_worker
run_worker_ends net clock proto payload end id sockets r ok over h c =
    let g =
      next_result {Q = Going net ok clock proto payload 0} (make_buffer-Gives proto payload id h)
        (λ buf b.
          worker_loop-Gives net ok clock proto payload end over sockets end 0
            (record r { buffer = buf }) (omega arith)
            (record { buffered = b; counted = c; later = omega arith })) in
    (g.value, g.returns, g.holds.counted)

-- ===== src/StressTest/Worker.antt =====
-- WorkerLoop of StressTest/main.cpp: the loop over the sockets of a thread, and its statistics. The
-- clock and the stop token are asked again and again; the answers are functions of how often they
-- were asked before. The pause between exchanges is left out.
pub mod Exchanges
pub mod Ends
use iocpserver.Prelude.{
  ℕ, zero, suc, ◌+◌, ◌%◌, ◌^◌, Bool, true, false, Option, none, some, List, [], ◌∷◌, ◌++◌,
  if◌then◌else◌, ◌>>=◌,
}
use iocpserver.World.{update}
use iocpserver.StressTest.{Proto}
use iocpserver.StressTest.Socket.{Socket, Net}
use iocpserver.StressTest.Exchange.{exchange, make_buffer}

-- Round trips are counted in ticks of the clock.
pub record Stats : Type 0 where
  pub rtts : List ℕ
  pub ok : ℕ
  pub err : ℕ

pub record Clock : Type 0 where
  pub stop_requested : ℕ → Bool
  pub is_over : ℕ → Bool  -- now() >= _tEnd
  pub elapsed : ℕ → ℕ  -- since t0

pub record Run : Type 0 where
  pub stats : Stats
  pub socket : ℕ → Socket
  pub buffer : List ℕ
  pub asked : ℕ

-- What the two branches on bOk do to the statistics that the threads share.
unfoldable pub count : Bool → ℕ → Stats → Stats
count true ms st = record st { rtts = st.rtts ++ (ms ∷ []); ok = (st.ok + 1) % 2 ^ 64 }
count false ms st = record st { err = (st.err + 1) % 2 ^ 64 }

abbrev pub ask : Run → Run
ask r = record r { asked = r.asked + 1 }

module _ (net : Net) (clock : Clock) (proto : Proto) (payload : List ℕ) where
  -- One socket.
  unfoldable pub serve : ℕ → Run → Option Run
  unfolding count
  serve p r = exchange net proto payload r.buffer (r.socket p) >>= (λ x. some (record {
    stats = count x.1.0 (clock.elapsed r.asked) r.stats;
    socket = update r.socket p x.1.1;
    buffer = x.0;
    asked = r.asked;
  }))

  -- The loop over the sockets, which a stop or the end of the time breaks.
  unfoldable pub serve_all : List ℕ → Run → Option Run
  unfolding serve
  serve_all [] r = some r
  serve_all (p ∷ sockets) r =
      if clock.stop_requested r.asked
      then some (ask r)
      else serve p (ask r) >>= (λ q. elim (clock.is_over q.asked) [
        | true ↦ some (ask q)
        | false ↦ serve_all sockets (ask q)
      ])

  -- The outer loop; `none` is a write outside the buffer, or fuel that has run out.
  unfoldable pub worker_loop : ℕ → List ℕ → Run → Option Run
  unfolding serve_all
  worker_loop zero sockets r = none
  worker_loop (suc fuel) sockets r =
      if clock.stop_requested r.asked then some (ask r) else elim (clock.is_over (r.asked + 1)) [
        | true ↦ some (ask (ask r))
        | false ↦ serve_all sockets (ask (ask r)) >>= (λ q. worker_loop fuel sockets q)
      ]

  -- The whole of WorkerLoop, from the send buffer on.
  unfoldable pub run_worker : ℕ → ℕ → List ℕ → Run → Option Run
  unfolding worker_loop
  run_worker fuel id sockets r =
      make_buffer proto payload id >>= (λ buf. worker_loop fuel sockets (record r { buffer = buf }))

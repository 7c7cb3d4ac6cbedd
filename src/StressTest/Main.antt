-- ===== src/StressTest/Main.antt =====
-- StressTest/main.cpp: CreateAndConnectSocket and `main`. Winsock's answers are a parameter, as are
-- the generator of the payload and, for each thread, its clock; the results file is left out.
pub mod Closed
use Prim.Native.String.{String}
use iocpserver.Prelude.{
  ℕ, zero, suc, Bool, true, false, Option, none, some, List, [], ◌∷◌, ◌++◌, length, if◌then◌else◌,
  ◌>>=◌,
}
use iocpserver.Prelude.Int.{ℤ, pos, negsuc}
use iocpserver.StressTest.{Args, default_args, parse_args, thread_count, buckets_of}
use iocpserver.StressTest.Socket.{Socket, Net}
use iocpserver.StressTest.Percentiles.{percentiles}
use iocpserver.StressTest.Worker.{Stats, Clock, Run, run_worker}

pub data SockCall : Type 0 where
  wsa_startup : Bool → SockCall
  wsa_cleanup wsa_socket : SockCall
  opened set_no_delay closesocket : ℕ → SockCall
  set_recv_timeout set_send_timeout connect : ℕ → ℕ → SockCall

-- The newest call stands first. `opened` is what WSASocket has returned.
abbrev pub SockCalls : Type 0
SockCalls = List SockCall

pub record Winsock : Type 0 where
  pub started : Bool
  pub new_socket : SockCalls → Option ℕ
  pub is_address : String → Bool
  pub connected : SockCalls → Bool

unfoldable pub keep_socket : Option ℕ → List ℕ → List ℕ
keep_socket none sockets = sockets
keep_socket (some s) sockets = sockets ++ (s ∷ [])

module _ (ws : Winsock) where
  unfoldable pub connect_or_close : String → ℕ → ℕ → SockCalls → Option ℕ × SockCalls
  connect_or_close host port s t =
      if ws.is_address host
      then if ws.connected t
        then (some s, connect s port ∷ t)
        else (none, closesocket s ∷ connect s port ∷ t)
      else (none, closesocket s ∷ t)

  unfoldable pub with_socket : String → ℕ → Option ℕ → SockCalls → Option ℕ × SockCalls
  unfolding connect_or_close
  with_socket host port none t = (none, t)
  with_socket host port (some s) t =
      connect_or_close host port s
        (set_send_timeout s 5000 ∷ set_recv_timeout s 5000 ∷ set_no_delay s ∷ opened s ∷ t)

  -- CreateAndConnectSocket
  unfoldable pub create_and_connect_socket : String → ℕ → SockCalls → Option ℕ × SockCalls
  unfolding with_socket
  create_and_connect_socket host port t = with_socket host port (ws.new_socket t) (wsa_socket ∷ t)

  -- The loop over `iConcurrency`.
  unfoldable pub connect_all : String → ℕ → ℕ → List ℕ → SockCalls → List ℕ × SockCalls
  unfolding create_and_connect_socket keep_socket
  connect_all host port zero sockets t = (sockets, t)
  connect_all host port (suc n) sockets t =
      let (o, t') = create_and_connect_socket host port t in
      connect_all host port n (keep_socket o sockets) t'

unfoldable pub close_all : List ℕ → SockCalls → SockCalls
close_all [] t = t
close_all (s ∷ sockets) t = close_all sockets (closesocket s ∷ t)

abbrev pub random_bytes : (ℕ → ℕ) → ℕ → ℕ → List ℕ
random_bytes random i zero = []
random_bytes random i (suc n) = random i ∷ random_bytes random (suc i) n

-- What the program meets: std::stoi, Winsock, the sockets' peers, and for each thread its clock and
-- the fuel of its loop.
pub record Bench : Type 0 where
  pub stoi : String → Option ℤ
  pub winsock : Winsock
  pub net : Net
  pub socket : ℕ → Socket
  pub clock : ℕ → Clock
  pub fuel : ℕ
  pub hardware : ℕ
  pub random : ℕ → ℕ
  pub sort : List ℕ → List ℕ

-- OK, ERR, P50 and P95 of the last line. The quotients behind them are left out.
pub record Report : Type 0 where
  pub ok : ℕ
  pub err : ℕ
  pub p50 : ℕ
  pub p95 : ℕ

-- `main` returns a value; or an exception that nothing catches, or a write outside a buffer, is its
-- end.
pub data Ending : Type 0 where
  exits : ℕ → Option Report → SockCalls → Ending
  terminates : SockCalls → Ending

module _ (b : Bench) where
  -- The threads share the statistics alone, under a lock: they are taken one after the other.
  unfoldable pub run_threads : Args → List ℕ → (ℕ → List ℕ) → ℕ → ℕ → Run → Option Run
  unfolding run_worker
  run_threads args payload buckets i zero r = some r
  run_threads args payload buckets i (suc n) r =
      run_worker b.net (b.clock i) args.proto payload b.fuel args.packet_id (buckets i)
        (record r { asked = 0 })
      >>= (λ q. run_threads args payload buckets (suc i) n q)

  report_of : Stats → Report
  unfolding percentiles
  report_of st =
      let (p50, p95) = percentiles b.sort st.rtts in
      record { ok = st.ok; err = st.err; p50 = p50; p95 = p95 }

  unfoldable pub after_threads : List ℕ → SockCalls → Option Run → Ending
  unfolding report_of close_all
  after_threads sockets t none = terminates t
  after_threads sockets t (some r) =
      exits 0 (some (report_of r.stats)) (wsa_cleanup ∷ close_all sockets t)

  -- `vector<char> vPayload(args.iMsgSize)` throws for a negative size.
  unfoldable pub with_size : Args → List ℕ → SockCalls → ℤ → Ending
  unfolding after_threads run_threads thread_count buckets_of
  with_size args sockets t (negsuc n) = terminates t
  with_size args sockets t (pos n) =
      let threads = thread_count args.threads b.hardware (length sockets) in
      after_threads sockets t (
        run_threads args (random_bytes b.random 0 n) (buckets_of threads sockets) 0 threads
          (record {
            stats = record { rtts = []; ok = 0; err = 0 };
            socket = b.socket;
            buffer = [];
            asked = 0;
          }))

  unfoldable pub with_sockets : Args → List ℕ × SockCalls → Ending
  unfolding with_size
  with_sockets args ([], t) = exits 1 none (wsa_cleanup ∷ t)
  with_sockets args (s ∷ sockets, t) = with_size args (s ∷ sockets) t args.msg_size

  -- `reserve(args.iConcurrency)` throws for a negative number.
  unfoldable pub with_concurrency : Args → SockCalls → ℤ → Ending
  unfolding with_sockets connect_all
  with_concurrency args t (negsuc n) = terminates t
  with_concurrency args t (pos n) =
      with_sockets args (connect_all b.winsock args.host args.port n [] t)

  unfoldable pub with_args : SockCalls → Option (Bool × Args) → Ending
  unfolding with_concurrency
  with_args t none = terminates t
  with_args t (some (false, args)) = exits 1 none t
  with_args t (some (true, args)) =
      let t' = wsa_startup b.winsock.started ∷ t in
      if b.winsock.started then with_concurrency args t' args.concurrency else exits 1 none t'

  -- `main`, on what follows argv[0].
  unfoldable pub main : List String → Ending
  unfolding with_args parse_args
  main argv = with_args [] (parse_args b.stoi argv default_args)

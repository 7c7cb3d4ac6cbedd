-- ===== src/StressTest/Tests.antt =====
-- An echo of two bytes, and three sockets for two threads.
use Prim.Native.String.{String}
use text.Mathlib.Text.{◌==◌}
use iocpserver.Prelude.{
  List, if◌then◌else◌, ◌||◌, ◌+◌, ℕ, ◌≤◌, ◌<◌, ◌≡◌, ◌⊎◌, refl, sym, ap, ◌∙◌, inl, inr, Bool, true,
  false, Option, none, some, [], ◌∷◌, ◌++◌, length, leb, ◌>>=◌, arith, Bool-cases, le→leb,
}
use mathlib.Core.Option.{some-injective}
use iocpserver.Prelude.Int.{ℤ, pos}
use iocpserver.Vector.{occurs}
use iocpserver.Database.Pool.Claims.{sum_of}
use iocpserver.Packet.Header.{header, header_size, header_id}
use iocpserver.StressTest.{Args, default_args, parse_args, packet, thread_count, buckets_of}
use iocpserver.StressTest.Shares.{buckets_shared}
use iocpserver.StressTest.Socket.{Socket, Net, IsNet}
use iocpserver.StressTest.Exchange.{make_buffer, exchange}
use iocpserver.StressTest.Exchange.Packets.{Exchanged, exchange-packet}
use iocpserver.StressTest.Worker.{Clock, Run, run_worker}
use iocpserver.StressTest.Options.{command_line, parse_args-command_line}
use iocpserver.StressTest.Main.{Bench, main}
use iocpserver.StressTest.Main.Closed.{Closes, main-Closes}
use iocpserver.StressTest.Worker.Ends.{IsCounted, Fits, run_worker_ends}

-- A network that takes one byte at a time, and gives one while there is one.
abbrev one_byte : Bool → Option ℕ
one_byte true = some 1
one_byte false = none

abbrev slow : Net
slow = record { send = λ s n. some 1; recv = λ s n. one_byte (leb 1 (length s.incoming)) }

slow-IsNet : IsNet slow
slow-IsNet = record {
  send_some =
      λ s n m h e. (one m (sym (some-injective 1 m e)), at_most n m h (some-injective 1 m e));
  recv_some = λ s n m h e. by s n m h e (Bool-cases (leb 1 (length s.incoming)));
}
  where
    one : (m : ℕ) → m ≡ 1 → 0 < m
    one m e = omega arith

    at_most : (n m : ℕ) → 0 < n → 1 ≡ m → m ≤ n
    at_most n m h e = omega arith

    leb_one :
        (s : Socket) (m : ℕ) → leb 1 (length s.incoming) ≡ true → m ≡ 1 → m ≤ length s.incoming
    leb_one s m there e = ground arith

    got : {b : Bool} {m : ℕ} → b ≡ true → one_byte b ≡ some m → m ≡ 1
    got {b} {m} there e = sym (some-injective 1 m (ap one_byte (sym there) ∙ e))

    by :
        (s : Socket) (n m : ℕ)
        → 0 < n
        → slow.recv s n ≡ some m
        → (leb 1 (length s.incoming) ≡ true) ⊎ (leb 1 (length s.incoming) ≡ false)
        → (0 < m) × (m ≤ n) × (m ≤ length s.incoming)
    by s n m h e (inl there) =
        (one m (got there e), at_most n m h (sym (got there e)), leb_one s m there (got there e))
    by s n m h e (inr not_there) = absurd (cc (ap one_byte not_there, e))

abbrev answers : Socket
answers = record { sent = []; incoming = 6 ∷ 0 ∷ 3 ∷ 0 ∷ 7 ∷ 8 ∷ 9 ∷ [] }

exchange-packet_example :
    Exchanged
      (header 6 1 ++ (7 ∷ 8 ∷ []))
      (9 ∷ [])
      answers
      (make_buffer packet (7 ∷ 8 ∷ []) 1 >>= (λ buf. exchange slow packet (7 ∷ 8 ∷ []) buf answers))
exchange-packet_example =
    exchange-packet slow slow-IsNet (7 ∷ 8 ∷ []) (6 ∷ 0 ∷ 3 ∷ 0 ∷ 7 ∷ 8 ∷ []) (9 ∷ []) 1 3 answers
      (omega arith) refl (unfold header_size header_id in (refl, refl, omega arith, omega arith))

abbrev ticks : Clock
ticks = record { stop_requested = λ k. false; is_over = λ k. leb 4 k; elapsed = λ k. 1 }

abbrev first_run : Run
first_run = record {
  stats = record { rtts = []; ok = 0; err = 0 };
  socket = λ p. answers;
  buffer = [];
  asked = 0;
}

run_worker_ends_example :
    (q : Run) × (run_worker slow ticks packet (7 ∷ 8 ∷ []) 5 1 (3 ∷ []) first_run ≡ some q)
    × IsCounted q.stats
run_worker_ends_example =
    run_worker_ends slow ticks packet (7 ∷ 8 ∷ []) 4 1 (3 ∷ []) first_run slow-IsNet
      (λ k h. le→leb 4 k h) (unfold Fits in omega arith) (unfold IsCounted in refl)

buckets_shared_example :
    (0 < thread_count (pos 2) 8 3)
    × ((j : ℕ)
        → j < thread_count (pos 2) 8 3
        → 0 < length (buckets_of (thread_count (pos 2) 8 3) (4 ∷ 5 ∷ 6 ∷ []) j))
    × ((p : ℕ)
        → sum_of
            (occurs p)
            (thread_count (pos 2) 8 3)
            (buckets_of (thread_count (pos 2) 8 3) (4 ∷ 5 ∷ 6 ∷ []))
          ≡ occurs p (4 ∷ 5 ∷ 6 ∷ []))
buckets_shared_example = buckets_shared (pos 2) 8 (4 ∷ 5 ∷ 6 ∷ []) (omega arith)

abbrev argv : List String
argv = "-c" ∷ "3" ∷ "-size" ∷ "2" ∷ "-proto" ∷ "packet" ∷ []

abbrev two_numbers : String → Option ℤ
two_numbers v = if v == "3" then some (pos 3) else if v == "2" then some (pos 2) else none

abbrev parsed_args : Args
parsed_args = record default_args { concurrency = pos 3; msg_size = pos 2; proto = packet }

-- The second connection fails.
abbrev bench : Bench
bench = record {
  stoi = two_numbers;
  winsock = record {
    started = true;
    new_socket = λ t. some (length t);
    is_address = λ host. true;
    connected = λ t. leb (length t) 8 || leb 13 (length t);
  };
  net = slow;
  socket = λ p. answers;
  clock = λ i. ticks;
  fuel = 5;
  hardware = 8;
  random = λ i. i + 7;
  sort = λ xs. xs;
}

main-Closes_example : Closes (main bench argv)
unfolding parse_args Fits
main-Closes_example =
    main-Closes bench parsed_args 2 refl 4 slow-IsNet refl (λ i k h. le→leb 4 k h) (omega arith)
      argv 3 refl refl

-- Every number is shown as "8", which is what it is read as.
abbrev eights : Args
eights = record {
  host = "h";
  port = 8;
  concurrency = pos 8;
  msg_size = pos 8;
  think_ms = pos 8;
  duration_sec = pos 8;
  threads = pos 8;
  proto = packet;
  packet_id = 8;
}

parse_args-command_line_example :
    parse_args
      (λ v. some (pos 8))
      (command_line (λ n. "8") true eights ++ ("-c" ∷ "9" ∷ []))
      default_args
    ≡ parse_args (λ v. some (pos 8)) ("-c" ∷ "9" ∷ []) eights
parse_args-command_line_example =
    parse_args-command_line (λ v. some (pos 8)) (λ n. "8") true eights default_args
      ("-c" ∷ "9" ∷ []) (refl, (refl, (refl, (refl, (refl, (refl, (refl, tt))))))) (omega arith)
      (omega arith)

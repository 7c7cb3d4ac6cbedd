-- ===== src/StressTest/Main/Closed.antt =====
-- Every socket that the load generator opens is closed.
use Prim.Native.String.{String}
use iocpserver.Prelude.{
  ℕ, zero, suc, ◌+◌, ◌≤◌, ◌≡◌, refl, sym, ap, subst, ◌∙◌, inl, inr, Bool, true, false, Option, none,
  some, List, [], ◌∷◌, length, ◌==◌, if◌then◌else◌, ◌>>=◌, Bool-cases, Option-cases, arith,
}
use iocpserver.Prelude.Int.{pos}
use iocpserver.Vector.{occurs, occurs-append}
use iocpserver.StressTest.{thread_count, buckets_of, Args, default_args, parse_args}
use iocpserver.StressTest.Socket.{IsNet}
use iocpserver.StressTest.Worker.{Run, run_worker}
use iocpserver.StressTest.Worker.Ends.{IsCounted, Fits, run_worker_ends}
use iocpserver.StressTest.Main.{
  SockCall, SockCalls, opened, closesocket, wsa_startup, wsa_cleanup, wsa_socket, set_no_delay,
  set_recv_timeout, set_send_timeout, Winsock, create_and_connect_socket, connect_all, keep_socket,
  close_all, random_bytes, Bench, Report, Ending, exits, run_threads, after_threads, with_size,
  with_concurrency, with_args, with_sockets, with_socket, connect_or_close, main,
}

abbrev opens : ℕ → SockCall → ℕ
opens p (opened s) = if s == p then 1 else 0
opens p c = 0

abbrev closes : ℕ → SockCall → ℕ
closes p (closesocket s) = if s == p then 1 else 0
closes p c = 0

abbrev starts : SockCall → ℕ
starts (wsa_startup true) = 1
starts c = 0

abbrev cleanups : SockCall → ℕ
cleanups wsa_cleanup = 1
cleanups c = 0

unfoldable number : (SockCall → ℕ) → SockCalls → ℕ
number f [] = 0
number f (c ∷ t) = f c + number f t

-- The sockets that are open are these, each as often as it was opened more than closed; and Winsock
-- was started `k` times more than cleaned up.
unfoldable pub HasOpen : List ℕ → ℕ → SockCalls → Type 0
unfolding number
HasOpen sockets k t =
    ((p : ℕ) → number (opens p) t ≡ number (closes p) t + occurs p sockets)
    × (number starts t ≡ number cleanups t + k)

close_all-HasOpen :
    (sockets : List ℕ) (k : ℕ) (t : SockCalls)
    → HasOpen sockets k t
    → HasOpen [] k (close_all sockets t)
unfolding close_all
close_all-HasOpen [] k t h = h
close_all-HasOpen (s ∷ sockets) k t h =
    close_all-HasOpen sockets k (closesocket s ∷ t)
      (unfold HasOpen number occurs in ((λ p. omega (arith, h.0 p)), omega (arith, h.1)))

module _ (ws : Winsock) (host : String) (port : ℕ) where
  opened-HasOpen :
      (s : ℕ) (sockets : List ℕ) (k : ℕ) (t : SockCalls)
      → HasOpen sockets k t
      → let (o, t') = with_socket ws host port (some s) t in HasOpen (keep_socket o sockets) k t'
  unfolding with_socket
  opened-HasOpen s sockets k t h = elim (Bool-cases (ws.is_address host)) [
    | inl good ↦ elim (Bool-cases (ws.connected t₁)) [
      | inl accepted ↦
          (unfold connect_or_close in
            rw (good, accepted)
              (unfold keep_socket HasOpen number occurs in
                (
                  (λ p. omega (arith, h.0 p, occurs-append p sockets (s ∷ []))),
                  omega (arith, h.1),
                )))
      | inr refused ↦
          (unfold connect_or_close in
            rw (good, refused)
              (unfold keep_socket HasOpen number in
                ((λ p. omega (arith, h.0 p)), omega (arith, h.1))))
    ]
    | inr bad ↦
        (unfold connect_or_close in
          rw bad (
            unfold keep_socket HasOpen number in ((λ p. omega (arith, h.0 p)), omega (arith, h.1))))
  ]
    where
      t₁ : SockCalls
      t₁ = set_send_timeout s 5000 ∷ set_recv_timeout s 5000 ∷ set_no_delay s ∷ opened s ∷ t

  create-HasOpen :
      (sockets : List ℕ) (k : ℕ) (t : SockCalls)
      → HasOpen sockets k t
      → let (o, t') = create_and_connect_socket ws host port t in
        HasOpen (keep_socket o sockets) k t'
  unfolding create_and_connect_socket
  create-HasOpen sockets k t h = elim (Option-cases (ws.new_socket t)) [
    | inl refused ↦
        rw refused
          (unfold keep_socket HasOpen number in ((λ p. omega (arith, h.0 p)), omega (arith, h.1)))
    | inr (s, given) ↦ rw given (
        opened-HasOpen s sockets k (wsa_socket ∷ t)
          (unfold HasOpen number in ((λ p. omega (arith, h.0 p)), omega (arith, h.1))))
  ]

  connect_all-HasOpen :
      (n : ℕ) (sockets : List ℕ) (k : ℕ) (t : SockCalls)
      → HasOpen sockets k t
      → let (sockets', t') = connect_all ws host port n sockets t in HasOpen sockets' k t'
  unfolding connect_all
  connect_all-HasOpen zero sockets k t h = h
  connect_all-HasOpen (suc n) sockets k t h =
      connect_all-HasOpen n _ k _ (create-HasOpen sockets k t h)

-- The threads, one after the other, return.
run_threads-ends :
    (b : Bench) (end : ℕ) (args : Args) (payload : List ℕ) (buckets : ℕ → List ℕ)
    → IsNet b.net
    → b.fuel ≡ suc end
    → ((i k : ℕ) → end ≤ k → (b.clock i).is_over k ≡ true)
    → Fits args.proto payload
    → (n i : ℕ) (r : Run) → IsCounted r.stats
    → (q : Run) × (run_threads b args payload buckets i n r ≡ some q) × IsCounted q.stats
unfolding run_threads
run_threads-ends b end args payload buckets net fuel over fits zero i r h = (r, refl, h)
run_threads-ends b end args payload buckets net fuel over fits (suc n) i r h =
    let (q, ran, counted) =
      run_worker_ends b.net (b.clock i) args.proto payload end args.packet_id (buckets i)
        (record r { asked = 0 }) net (over i) fits h in
    let (q', rest, counted') =
      run_threads-ends b end args payload buckets net fuel over fits n (suc i) q counted in
    (
      q',
      ap (λ o. o >>= (λ q. run_threads b args payload buckets (suc i) n q))
            (ap
                (λ k.
                  run_worker b.net (b.clock i) args.proto payload k args.packet_id (buckets i)
                    (record r { asked = 0 }))
                fuel
              ∙ ran)
          ∙ rest,
      counted',
    )

-- It returns 0 with a report, or 1 without; no socket is open any more, and Winsock was cleaned up
-- as often as it was started.
pub data Closes : Ending → Type 0 where
  measured : (r : Report) (t : SockCalls) → HasOpen [] 0 t → Closes (exits 0 (some r) t)
  gave_up : (t : SockCalls) → HasOpen [] 0 t → Closes (exits 1 none t)

module _ (b : Bench) (args : Args) (m : ℕ) (size : args.msg_size ≡ pos m) (end : ℕ)
    (net : IsNet b.net) (fuel : b.fuel ≡ suc end)
    (over : (i k : ℕ) → end ≤ k → (b.clock i).is_over k ≡ true)
    (fits : Fits args.proto (random_bytes b.random 0 m)) where
  cleaned :
      (sockets : List ℕ) (t : SockCalls) → HasOpen sockets 1 t → HasOpen sockets 0 (wsa_cleanup ∷ t)
  cleaned sockets t h = unfold HasOpen number in ((λ p. omega (arith, h.0 p)), omega (arith, h.1))

  after_threads-Closes :
      (sockets : List ℕ) (t : SockCalls) (o : Option Run) (q : Run)
      → o ≡ some q
      → HasOpen sockets 1 t
      → Closes (after_threads b sockets t o)
  unfolding after_threads
  after_threads-Closes sockets t o q e h =
      subst (λ o. Closes (after_threads b sockets t o)) (sym e)
        (measured _ (wsa_cleanup ∷ close_all sockets t)
          (cleaned [] (close_all sockets t) (close_all-HasOpen sockets 1 t h)))

  with_sockets-Closes :
      (sockets : List ℕ) (t : SockCalls)
      → HasOpen sockets 1 t
      → Closes (with_sockets b args (sockets, t))
  unfolding with_sockets
  with_sockets-Closes [] t h = gave_up (wsa_cleanup ∷ t) (cleaned [] t h)
  with_sockets-Closes (s ∷ sockets) t h =
      subst (λ n. Closes (with_size b args (s ∷ sockets) t n)) (sym size)
        (unfold with_size in
          let threads = thread_count args.threads b.hardware (length (s ∷ sockets)) in
          let (q, ran, counted) =
            run_threads-ends b end args (random_bytes b.random 0 m)
              (buckets_of threads (s ∷ sockets)) net fuel over fits threads 0
              (record {
                stats = record { rtts = []; ok = 0; err = 0 };
                socket = b.socket;
                buffer = [];
                asked = 0;
              })
              (unfold IsCounted in refl) in
          after_threads-Closes (s ∷ sockets) t _ q ran h)

  -- For arguments that parse, with a number of sockets and a size that are not negative and a payload
  -- that the protocol carries, clocks that pass their end, and whatever Winsock answers: `main`
  -- returns 0 with a report or 1 without, and by then every socket that was opened has been closed,
  -- as often as it was opened, and Winsock cleaned up if it was started.
  pub main-Closes :
      (argv : List String) (c : ℕ)
      → parse_args b.stoi argv default_args ≡ some (true, args)
      → args.concurrency ≡ pos c
      → Closes (main b argv)
  unfolding main
  main-Closes argv c parsed concurrency =
      subst (λ o. Closes (with_args b [] o)) (sym parsed)
        (unfold with_args in begun b.winsock.started refl)
    where
      begun :
          (up : Bool)
          → b.winsock.started ≡ up
          → Closes (
              if up
              then with_concurrency b args (wsa_startup up ∷ []) args.concurrency
              else exits 1 none (wsa_startup up ∷ []))
      begun false e =
          gave_up (wsa_startup false ∷ []) (unfold HasOpen number occurs in ((λ p. refl), refl))
      begun true e =
          subst (λ n. Closes (with_concurrency b args (wsa_startup true ∷ []) n)) (sym concurrency)
            (unfold with_concurrency in
              with_sockets-Closes _ _ (
                connect_all-HasOpen b.winsock args.host args.port c [] 1 (wsa_startup true ∷ [])
                  (unfold HasOpen number occurs in ((λ p. refl), refl))))

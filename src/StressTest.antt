-- ===== src/StressTest.antt =====
-- StressTest/main.cpp: the load generator. Its arguments, the sharing of the sockets among the
-- threads, and the percentiles; the children model the exchanges and the loop of a thread.
pub mod Socket
mod Tests
pub mod Exchange
pub mod Worker
pub mod Shares
pub mod Percentiles
pub mod Main
pub mod Options
use Prim.Native.String.{String}
use text.Mathlib.Text.{◌==◌}
use iocpserver.Prelude.{
  ℕ, zero, suc, ◌+◌, ◌-◌, ◌*◌, ◌/◌, ◌%◌, ◌^◌, min, Bool, true, false, ◌||◌, Option, none, some,
  List, [], ◌∷◌, ◌++◌, length, get_elem?, ltb, if◌then◌else◌, ◌>>=◌,
}
use iocpserver.Prelude.Int.{ℤ, pos, to_size, ltb_ℤ, pos_part}
use iocpserver.World.{update}

pub data Proto : Type 0 where
  raw : Proto
  len_prefixed : Proto
  packet : Proto

pub record Args : Type 0 where
  pub host : String
  pub port : ℕ
  pub concurrency : ℤ
  pub msg_size : ℤ
  pub think_ms : ℤ
  pub duration_sec : ℤ
  pub threads : ℤ
  pub proto : Proto
  pub packet_id : ℕ

abbrev pub default_args : Args
default_args = record {
  host = "127.0.0.1";
  port = 14002;
  concurrency = pos 200;
  msg_size = pos 64;
  think_ms = pos 0;
  duration_sec = pos 30;
  threads = pos 0;
  proto = raw;
  packet_id = 1;
}

-- static_cast<uint16_t>
abbrev pub to_uint16 : ℤ → ℕ
to_uint16 n = to_size n % 2 ^ 16

unfoldable pub set_proto : String → Args → Bool × Args
set_proto v out =
    if v == "raw"
    then (true, record out { proto = raw })
    else if v == "len"
    then (true, record out { proto = len_prefixed })
    else if v == "packet"
    then (true, record out { proto = packet })
    else (false, out)

-- `std::stoi` is the parameter; it throws where it gives `none`.
module _ (stoi : String → Option ℤ) where
  unfoldable pub read_number : String → (ℤ → Args) → Option (Bool × Args)
  read_number v set = stoi v >>= (λ n. some (true, set n))

  -- One argument and the value behind it; `false` is an argument that is not known.
  unfoldable pub set_arg : String → String → Args → Option (Bool × Args)
  unfolding read_number set_proto
  set_arg sv v out =
      if (sv == "-h") || (sv == "--host")
      then some (true, record out { host = v })
      else if (sv == "-p") || (sv == "--port")
      then read_number v (λ n. record out { port = to_uint16 n })
      else if (sv == "-c") || (sv == "--concurrency")
      then read_number v (λ n. record out { concurrency = n })
      else if sv == "-size"
      then read_number v (λ n. record out { msg_size = n })
      else if sv == "-think"
      then read_number v (λ n. record out { think_ms = n })
      else if (sv == "-dur") || (sv == "--duration")
      then read_number v (λ n. record out { duration_sec = n })
      else if sv == "-threads"
      then read_number v (λ n. record out { threads = n })
      else if sv == "-proto"
      then some (set_proto v out)
      else if (sv == "-pid") || (sv == "--packet-id")
      then read_number v (λ n. record out { packet_id = to_uint16 n })
      else some (false, out)

  -- ParseArgs, on what follows argv[0]. A value that is missing is the empty text.
  unfoldable pub parse_args : List String → Args → Option (Bool × Args)
  unfolding set_arg
  parse_args [] out = some (true, out)
  parse_args (sv ∷ []) out = set_arg sv "" out
  parse_args (sv ∷ v ∷ rest) out =
      set_arg sv v out
      >>= (λ r. elim r.0 [ true ↦ parse_args rest r.1 | false ↦ some (false, r.1) ])

-- iThreads: as many as asked for or as the hardware has, at least one, and not more than sockets.
unfoldable pub thread_count : ℤ → ℕ → ℕ → ℕ
thread_count asked hardware sockets =
    let n = min (if ltb_ℤ (pos 0) asked then pos_part asked else hardware) sockets in
    if ltb n 1 then 1 else n

-- vBuckets[i % iThreads].push_back(vSockets[i])
unfoldable pub fill_buckets : ℕ → ℕ → (ℕ → List ℕ) → List ℕ → ℕ → List ℕ
fill_buckets threads i buckets [] = buckets
fill_buckets threads i buckets (s ∷ sockets) =
    let k = i % threads in
    fill_buckets threads (i + 1) (update buckets k (buckets k ++ (s ∷ []))) sockets

unfoldable pub buckets_of : ℕ → List ℕ → ℕ → List ℕ
unfolding fill_buckets
buckets_of threads sockets = fill_buckets threads 0 (λ k. []) sockets

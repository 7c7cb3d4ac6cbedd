-- ===== src/StressTest/Options.antt =====
-- The arguments of the load generator as a command line that gives every one of them.
use Prim.Native.String.{String}
use native.Mathlib.Nat.{mod-eq_of_lt}
use iocpserver.Prelude.{
  ℕ, ◌^◌, ◌<◌, ◌≡◌, refl, Bool, true, false, Option, some, List, [], ◌∷◌, ◌++◌, if◌then◌else◌,
}
use iocpserver.Prelude.Int.{ℤ, pos}
use iocpserver.StressTest.{
  Proto, raw, len_prefixed, packet, Args, to_uint16, set_proto, set_arg, read_number, parse_args,
}

abbrev pub proto_name : Proto → String
proto_name raw = "raw"
proto_name len_prefixed = "len"
proto_name packet = "packet"

module _ (shown : ℤ → String) where
  -- Every setting behind its option, by its long name where it has one and `long` is true.
  abbrev pub command_line : Bool → Args → List String
  command_line long a =
      (if long then "--host" else "-h")
      ∷ a.host
      ∷ (if long then "--port" else "-p")
      ∷ shown (pos a.port)
      ∷ (if long then "--concurrency" else "-c")
      ∷ shown a.concurrency
      ∷ "-size"
      ∷ shown a.msg_size
      ∷ "-think"
      ∷ shown a.think_ms
      ∷ (if long then "--duration" else "-dur")
      ∷ shown a.duration_sec
      ∷ "-threads"
      ∷ shown a.threads
      ∷ "-proto"
      ∷ proto_name a.proto
      ∷ (if long then "--packet-id" else "-pid")
      ∷ shown (pos a.packet_id)
      ∷ []

to_uint16_small : (n : ℕ) → n < 2 ^ 16 → to_uint16 (pos n) ≡ n
to_uint16_small n h = mod-eq_of_lt h

set_proto-name :
    (q : Proto) (b : Args) → set_proto (proto_name q) b ≡ (true, record b { proto = q })
unfolding set_proto
set_proto-name raw b = refl
set_proto-name len_prefixed b = refl
set_proto-name packet b = refl

-- The numbers among the settings, and that std::stoi reads each as it is shown.
abbrev numbers : Args → List ℤ
numbers a =
    pos a.port
    ∷ a.concurrency
    ∷ a.msg_size
    ∷ a.think_ms
    ∷ a.duration_sec
    ∷ a.threads
    ∷ pos a.packet_id
    ∷ []

abbrev AreAllRead : (String → Option ℤ) → (ℤ → String) → List ℤ → Type 0
AreAllRead stoi shown [] = Unit {0}
AreAllRead stoi shown (n ∷ ns) = (stoi (shown n) ≡ some n) × AreAllRead stoi shown ns

abbrev pub AreRead : (String → Option ℤ) → (ℤ → String) → Args → Type 0
AreRead stoi shown a = AreAllRead stoi shown (numbers a)

-- Where std::stoi reads the numbers as they are shown: a command line that gives every setting, by
-- short or by long names, with a port and a packet id of 16 bits, sets exactly these, whatever was
-- set before, and the parsing goes on behind it.
pub parse_args-command_line :
    (stoi : String → Option ℤ) (shown : ℤ → String) (long : Bool) (a b : Args) (rest : List String)
    → AreRead stoi shown a
    → a.port < 2 ^ 16
    → a.packet_id < 2 ^ 16
    → parse_args stoi (command_line shown long a ++ rest) b ≡ parse_args stoi rest a
unfolding parse_args set_arg read_number
parse_args-command_line stoi shown true a b rest (p, (c, (m, (t, (d, (n, (i, e))))))) port_small
      id_small =
    rw
      (
        p,
        c,
        m,
        t,
        d,
        n,
        set_proto-name,
        i,
        to_uint16_small a.port port_small,
        to_uint16_small a.packet_id id_small,
      )
      refl
parse_args-command_line stoi shown false a b rest (p, (c, (m, (t, (d, (n, (i, e))))))) port_small
      id_small =
    rw
      (
        p,
        c,
        m,
        t,
        d,
        n,
        set_proto-name,
        i,
        to_uint16_small a.port port_small,
        to_uint16_small a.packet_id id_small,
      )
      refl

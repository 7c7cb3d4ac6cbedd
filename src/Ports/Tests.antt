-- ===== src/Ports/Tests.antt =====
-- A file with two ports.
use iocpserver.Prelude.{ℕ, ◌+◌, ◌≡◌, List, [], ◌∷◌, arith}
use iocpserver.Prelude.Int.{ℤ, pos}
use iocpserver.Ports.{client_key, game_key, gate_key, parse_ports}
use iocpserver.Ports.Keys.{contains_int, AreKeys, in_buffer, named, parse_ports_lem}

-- "Client" and "Gate1".
abbrev two_keys : List (List ℕ)
two_keys = client_key ∷ (71 ∷ 97 ∷ 116 ∷ 101 ∷ 49 ∷ []) ∷ []

abbrev number : List ℕ → ℤ
number [] = pos 0
number (b ∷ bs) = pos (9000 + b)

two_keys-AreKeys : AreKeys two_keys
two_keys-AreKeys = (
  (omega arith, (omega arith, (omega arith, (omega arith, (omega arith, (omega arith, tt)))))),
  ((omega arith, (omega arith, (omega arith, (omega arith, (omega arith, tt))))), tt),
)

parse_ports_example :
    (contains_int (pos 9067) (parse_ports number (in_buffer two_keys)).client
      ≡ named number client_key two_keys (pos 9067))
    × (contains_int (pos 9067) (parse_ports number (in_buffer two_keys)).game
        ≡ named number game_key two_keys (pos 9067))
    × (contains_int (pos 9067) (parse_ports number (in_buffer two_keys)).gate
        ≡ named number gate_key two_keys (pos 9067))
parse_ports_example = parse_ports_lem number two_keys (pos 9067) two_keys-AreKeys

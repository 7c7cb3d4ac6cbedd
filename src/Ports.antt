-- ===== src/Ports.antt =====
-- ServerCoreLibrary/ConfigReader.h and ConfigReader.cpp: the ports of the ini file, by the beginning
-- of their key. The names of the keys are in a buffer, each with a zero behind it, and a zero behind
-- the last; the file's integers are a parameter.
pub mod Keys
mod Tests
use iocpserver.Prelude.{
  ℕ, zero, suc, Bool, true, false, not, ◌||◌, ◌&&◌, List, [], ◌∷◌, ◌++◌, length, ◌==◌,
  if◌then◌else◌,
}
use iocpserver.Prelude.Int.{ℤ, ltb_ℤ}
use iocpserver.DbConfig.{starts_with}

-- std::set<INT32> is the list of its elements in order.
pub record Ports : Type 0 where
  pub client : List ℤ
  pub game : List ℤ
  pub gate : List ℤ
  pub login : List ℤ

unfoldable pub insert_port : ℤ → List ℤ → List ℤ
insert_port x [] = x ∷ []
insert_port x (y ∷ ys) =
    if ltb_ℤ x y then x ∷ y ∷ ys else if ltb_ℤ y x then y ∷ insert_port x ys else y ∷ ys

-- "Client", "Game", "Gate" and "Login".
abbrev pub client_key : List ℕ
client_key = 67 ∷ 108 ∷ 105 ∷ 101 ∷ 110 ∷ 116 ∷ []

abbrev pub game_key : List ℕ
game_key = 71 ∷ 97 ∷ 109 ∷ 101 ∷ []

abbrev pub gate_key : List ℕ
gate_key = 71 ∷ 97 ∷ 116 ∷ 101 ∷ []

abbrev pub login_key : List ℕ
login_key = 76 ∷ 111 ∷ 103 ∷ 105 ∷ 110 ∷ []

unfoldable pub insert_key : List ℕ → ℤ → Ports → Ports
unfolding insert_port
insert_key key port p =
    if starts_with client_key key
    then record p { client = insert_port port p.client }
    else if starts_with game_key key
    then record p { game = insert_port port p.game }
    else if starts_with gate_key key
    then record p { gate = insert_port port p.gate }
    else if starts_with login_key key
    then record p { login = insert_port port p.login }
    else p

-- The loop of ParsePorts over the buffer, with the characters of the key so far; a key without
-- characters is the end.
unfoldable pub parse_keys : (List ℕ → ℤ) → List ℕ → List ℕ → Ports → Ports
unfolding insert_key
parse_keys get_int key [] p = p
parse_keys get_int [] (b ∷ buffer) p =
    let more = parse_keys get_int (b ∷ []) buffer p in if b == 0 then p else more
parse_keys get_int (k ∷ key) (b ∷ buffer) p =
    let more = parse_keys get_int (k ∷ key ++ (b ∷ [])) buffer p in
    let next = parse_keys get_int [] buffer (insert_key (k ∷ key) (get_int (k ∷ key)) p) in
    if b == 0 then next else more

unfoldable pub parse_ports : (List ℕ → ℤ) → List ℕ → Ports
unfolding parse_keys
parse_ports get_int buffer =
    parse_keys get_int [] buffer (record { client = []; game = []; gate = []; login = [] })

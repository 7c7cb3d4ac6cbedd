-- ===== src/Ports/Keys.antt =====
-- The sets of ports that a list of keys gives.
use iocpserver.Prelude.{
  ℕ, ◌≡◌, ◌≢◌, ◌<◌, refl, sym, ap, ◌∙◌, Bool, true, false, not, ◌||◌, ◌&&◌, List, [], ◌∷◌, ◌++◌,
  append_assoc, append-nil, if◌then◌else◌, arith, ==_ne,
}
use iocpserver.Prelude.Int.{ℤ, ltb_ℤ}
use iocpserver.DbConfig.{starts_with}
use iocpserver.Ports.{
  Ports, insert_port, client_key, game_key, gate_key, login_key, insert_key, parse_keys,
  parse_ports,
}

-- Equal integers, and their membership in a list.
abbrev pub same_int : ℤ → ℤ → Bool
same_int x y = not (ltb_ℤ x y) && not (ltb_ℤ y x)

unfoldable pub contains_int : ℤ → List ℤ → Bool
contains_int z [] = false
contains_int z (x ∷ xs) = same_int z x || contains_int z xs

contains_int-insert_port :
    (z x : ℤ) (xs : List ℤ)
    → contains_int z (insert_port x xs) ≡ (same_int z x || contains_int z xs)
unfolding contains_int insert_port
contains_int-insert_port z x [] = refl
contains_int-insert_port z x (y ∷ ys) = ground (arith, contains_int-insert_port z x ys)

-- A key of characters, as it stands in the buffer.
abbrev pub AreChars : List ℕ → Type 0
AreChars [] = Unit {0}
AreChars (b ∷ bs) = (0 < b) × AreChars bs

abbrev pub IsKey : List ℕ → Type 0
IsKey [] = ⊥
IsKey (b ∷ bs) = (0 < b) × AreChars bs

abbrev pub AreKeys : List (List ℕ) → Type 0
AreKeys [] = Unit {0}
AreKeys (key ∷ keys) = IsKey key × AreKeys keys

abbrev pub in_buffer : List (List ℕ) → List ℕ
in_buffer [] = 0 ∷ []
in_buffer (key ∷ keys) = key ++ (0 ∷ in_buffer keys)

-- One key after the other.
abbrev pub insert_all : (List ℕ → ℤ) → List (List ℕ) → Ports → Ports
insert_all get_int [] p = p
insert_all get_int (key ∷ keys) p = insert_all get_int keys (insert_key key (get_int key) p)

positive : (b : ℕ) → 0 < b → b ≢ 0
positive b h = omega arith

module _ (get_int : List ℕ → ℤ) where
  more_of_key :
      (k : ℕ) (key more buffer : List ℕ) (p : Ports)
      → AreChars more
      → parse_keys get_int (k ∷ key) (more ++ buffer) p
        ≡ parse_keys get_int (k ∷ key ++ more) buffer p
  unfolding parse_keys
  more_of_key k key [] buffer p h =
      ap (λ c. parse_keys get_int (k ∷ c) buffer p) (sym (append-nil key))
  more_of_key k key (b ∷ bs) buffer p (some_char, h) = rw (==_ne b 0 (positive b some_char)) (
      more_of_key k (key ++ (b ∷ [])) bs buffer p h
      ∙ ap (λ c. parse_keys get_int (k ∷ c) buffer p) (append_assoc key (b ∷ []) bs))

  parse_keys-in_buffer :
      (keys : List (List ℕ)) (p : Ports)
      → AreKeys keys
      → parse_keys get_int [] (in_buffer keys) p ≡ insert_all get_int keys p
  unfolding parse_keys
  parse_keys-in_buffer [] p h = refl
  parse_keys-in_buffer ([] ∷ keys) p (no_key, h) = absurd no_key
  parse_keys-in_buffer ((b ∷ bs) ∷ keys) p ((some_char, chars), h) =
      rw (==_ne b 0 (positive b some_char)) (
        more_of_key b [] bs (0 ∷ in_buffer keys) p chars
        ∙ parse_keys-in_buffer keys (insert_key (b ∷ bs) (get_int (b ∷ bs)) p) h)

-- Whether a key that begins in a way has the number.
abbrev pub named : (List ℕ → ℤ) → List ℕ → List (List ℕ) → ℤ → Bool
named get_int prefix [] z = false
named get_int prefix (key ∷ keys) z =
    (starts_with prefix key && same_int z (get_int key)) || named get_int prefix keys z

-- No two of the beginnings are of one key.
exclusive :
    (key : List ℕ)
    → (starts_with client_key key && starts_with game_key key ≡ false)
      × (starts_with client_key key && starts_with gate_key key ≡ false)
      × (starts_with game_key key && starts_with gate_key key ≡ false)
unfolding starts_with
exclusive [] = (refl, refl, refl)
exclusive (a ∷ []) = (ground arith, ground arith, ground arith)
exclusive (a ∷ b ∷ []) = (ground arith, ground arith, ground arith)
exclusive (a ∷ b ∷ c ∷ key) = (ground arith, ground arith, ground arith)

-- The same by the answers of the four tests.
module _ (z port : ℤ) (p : Ports) where
  placed : Bool → Bool → Bool → Bool → Ports
  placed c g t l =
      if c
      then record p { client = insert_port port p.client }
      else if g
      then record p { game = insert_port port p.game }
      else if t
      then record p { gate = insert_port port p.gate }
      else if l
      then record p { login = insert_port port p.login }
      else p

  placed-contains :
      (c g t l : Bool)
      → (c && g ≡ false)
      → (c && t ≡ false)
      → (g && t ≡ false)
      → (contains_int z (placed c g t l).client
          ≡ ((c && same_int z port) || contains_int z p.client))
        × (contains_int z (placed c g t l).game ≡ ((g && same_int z port) || contains_int z p.game))
        × (contains_int z (placed c g t l).gate ≡ ((t && same_int z port) || contains_int z p.gate))
  unfolding placed
  placed-contains true true t l h j k = absurd (cc h)
  placed-contains true false true l h j k = absurd (cc j)
  placed-contains true false false l h j k = (contains_int-insert_port z port p.client, refl, refl)
  placed-contains false true true l h j k = absurd (cc k)
  placed-contains false true false l h j k = (refl, contains_int-insert_port z port p.game, refl)
  placed-contains false false true l h j k = (refl, refl, contains_int-insert_port z port p.gate)
  placed-contains false false false true h j k = (refl, refl, refl)
  placed-contains false false false false h j k = (refl, refl, refl)

insert_key-contains :
    (z : ℤ) (key : List ℕ) (port : ℤ) (p : Ports)
    → (contains_int z (insert_key key port p).client
        ≡ ((starts_with client_key key && same_int z port) || contains_int z p.client))
      × (contains_int z (insert_key key port p).game
          ≡ ((starts_with game_key key && same_int z port) || contains_int z p.game))
      × (contains_int z (insert_key key port p).gate
          ≡ ((starts_with gate_key key && same_int z port) || contains_int z p.gate))
unfolding insert_key placed
insert_key-contains z key port p =
    let (a, b, c) = exclusive key in
    placed-contains z port p (starts_with client_key key) (starts_with game_key key)
      (starts_with gate_key key) (starts_with login_key key) a b c

-- By the numbers that were there and those of the keys.
abbrev either : (List ℕ → ℤ) → List ℕ → List (List ℕ) → ℤ → List ℤ → Bool
either get_int prefix keys z xs = named get_int prefix keys z || contains_int z xs

insert_all-contains :
    (get_int : List ℕ → ℤ) (z : ℤ) (keys : List (List ℕ)) (p : Ports)
    → (contains_int z (insert_all get_int keys p).client
        ≡ either get_int client_key keys z p.client)
      × (contains_int z (insert_all get_int keys p).game ≡ either get_int game_key keys z p.game)
      × (contains_int z (insert_all get_int keys p).gate ≡ either get_int gate_key keys z p.gate)
insert_all-contains get_int z [] p = (refl, refl, refl)
insert_all-contains get_int z (key ∷ keys) p =
    let (a, b, c) = insert_all-contains get_int z keys (insert_key key (get_int key) p) in
    let (d, e, f) = insert_key-contains z key (get_int key) p in
    (ground (arith, a, d), ground (arith, b, e), ground (arith, c, f))

-- Of keys of characters, as the buffer holds them: a port is among those of the clients, of the
-- games and of the gates exactly if the file gives it under a key that begins with that word.
pub parse_ports_lem :
    (get_int : List ℕ → ℤ) (keys : List (List ℕ)) (z : ℤ)
    → AreKeys keys
    → (contains_int z (parse_ports get_int (in_buffer keys)).client
        ≡ named get_int client_key keys z)
      × (contains_int z (parse_ports get_int (in_buffer keys)).game ≡ named get_int game_key keys z)
      × (contains_int z (parse_ports get_int (in_buffer keys)).gate ≡ named get_int gate_key keys z)
unfolding parse_ports contains_int
parse_ports_lem get_int keys z h =
    let (a, b, c) = insert_all-contains get_int z keys none_yet in
    rw (parse_keys-in_buffer get_int keys none_yet h) (
      a ∙ no_more (named get_int client_key keys z),
      b ∙ no_more (named get_int game_key keys z),
      c ∙ no_more (named get_int gate_key keys z),
    )
  where
    none_yet : Ports
    none_yet = record { client = []; game = []; gate = []; login = [] }

    no_more : (b : Bool) → (b || false) ≡ b
    no_more true = refl
    no_more false = refl

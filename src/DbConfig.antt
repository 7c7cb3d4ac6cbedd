-- ===== src/DbConfig.antt =====
-- GameServer/DBConfigReader.h and DBConfigReader.cpp: the database settings. Texts are lists of
-- code units; what the file holds is a parameter.
pub mod Bounds
mod Tests
use iocpserver.Prelude.{
  ℕ, Bool, true, false, not, ◌||◌, ◌&&◌, Option, none, some, List, [], ◌∷◌, ◌++◌, ◌==◌,
  if◌then◌else◌,
}
use iocpserver.Prelude.Int.{ℤ, pos, ltb_ℤ}

pub record DbConfig : Type 0 where
  pub conn_str : List ℕ
  pub pool_size : ℤ
  pub health_sec : ℤ
  pub query_timeout_sec : ℤ

-- The two tests on a setting, one after the other.
unfoldable pub at_least : ℤ → ℤ → ℤ → ℤ
at_least low other n = if ltb_ℤ n low then other else n

unfoldable pub at_most : ℤ → ℤ → ℤ
at_most high n = if ltb_ℤ high n then high else n

unfoldable pub apply_defaults : DbConfig → DbConfig
unfolding at_least at_most
apply_defaults c = record c {
  pool_size = at_most (pos 64) (at_least (pos 1) (pos 1) c.pool_size);
  health_sec = at_most (pos 3600) (at_least (pos 1) (pos 5) c.health_sec);
  query_timeout_sec = at_most (pos 120) (at_least (pos 1) (pos 1) c.query_timeout_sec);
}

unfoldable pub starts_with : List ℕ → List ℕ → Bool
starts_with [] s = true
starts_with (p ∷ ps) [] = false
starts_with (p ∷ ps) (b ∷ bs) = (p == b) && starts_with ps bs

-- s.find(p) != npos
unfoldable pub finds : List ℕ → List ℕ → Bool
finds p [] = starts_with p []
finds p (b ∷ bs) = starts_with p (b ∷ bs) || finds p bs

-- "Driver=" and "Server=".
abbrev pub driver : List ℕ
driver = 68 ∷ 114 ∷ 105 ∷ 118 ∷ 101 ∷ 114 ∷ 61 ∷ []

abbrev pub server : List ℕ
server = 83 ∷ 101 ∷ 114 ∷ 118 ∷ 101 ∷ 114 ∷ 61 ∷ []

abbrev is_nil : List ℕ → Bool
is_nil [] = true
is_nil (b ∷ bs) = false

unfoldable pub validate : DbConfig → Bool
validate c =
    if is_nil c.conn_str
    then false
    else if not (finds driver c.conn_str)
    then false
    else finds server c.conn_str

-- Blank, tab, carriage return and newline.
unfoldable pub is_space : ℕ → Bool
is_space b = (b == 32) || (b == 9) || (b == 13) || (b == 10)

unfoldable pub drop_spaces : List ℕ → List ℕ
drop_spaces [] = []
drop_spaces (b ∷ bs) = if is_space b then drop_spaces bs else b ∷ bs

unfoldable pub reversed : List ℕ → List ℕ → List ℕ
reversed [] acc = acc
reversed (b ∷ bs) acc = reversed bs (b ∷ acc)

-- Without its first code unit, if that is a quote.
unfoldable pub drop_quote : List ℕ → List ℕ
drop_quote [] = []
drop_quote (b ∷ bs) = if (b == 34) || (b == 39) then bs else b ∷ bs

-- Trim: the spaces at both ends, then one quote at each.
unfoldable pub trim : List ℕ → List ℕ
trim s =
    let bare = reversed (drop_spaces (reversed (drop_spaces s) [])) [] in
    reversed (drop_quote (reversed (drop_quote bare) [])) []

-- What GetPrivateProfileString and GetPrivateProfileInt read for the four keys, with their
-- defaults.
pub record Ini : Type 0 where
  pub conn : List ℕ
  pub pool_size : ℤ
  pub health_sec : ℤ
  pub query_timeout_sec : ℤ

-- Load, of a file that may be missing: the settings, and whether they can be used.
unfoldable pub load : Option Ini → DbConfig → Bool × DbConfig
unfolding apply_defaults validate
load none c = (false, c)
load (some ini) c =
    let c' = apply_defaults (record {
      conn_str = trim ini.conn;
      pool_size = ini.pool_size;
      health_sec = ini.health_sec;
      query_timeout_sec = ini.query_timeout_sec;
    }) in
    (validate c', c')

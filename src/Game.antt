-- ===== src/Game.antt =====
-- GameServer/CUnitPC.h, CUnitPC.cpp, GameManager.h and GameManager.cpp: the players by session, and
-- the pool of CUnitPC objects. `m_UserMtx` covers Login and Logout, so each is one step. A vector is
-- the list of its elements in order.
pub mod Pool
pub mod Users
pub mod Leaving
pub mod Twice
pub mod Handlers
pub mod Thread
pub mod Answer
mod Tests
use iocpserver.Prelude.{
  ℕ, zero, suc, ◌+◌, Bool, true, false, Option, none, some, List, [], ◌∷◌, ◌++◌, take, drop,
  replicate, ◌==◌, if◌then◌else◌,
}
use iocpserver.Prelude.Int.{ℤ, pos, negsuc}
use iocpserver.World.{World, Session, UnitPc, Game, DisconnectCb, update, set_session}
use iocpserver.SessionManager.{insert, lookup}
use iocpserver.Vector.{unsnoc, swap_out, contains}

-- POOL_SIZE_PC and POOL_SIZE_PC_EXTRA.
abbrev pub pool_size_pc : ℕ
pool_size_pc = 100

abbrev pub pool_size_pc_extra : ℕ
pool_size_pc_extra = 10

-- CUnitPC::Init. The unique number stays.
abbrev pub init_unit : UnitPc → UnitPc
init_unit u = record u { session_id = 0; name = replicate 300 0 }

-- CUnitPC::SetName: 300 bytes, of which the one at 255 becomes 0.
unfoldable pub set_name : List ℕ → UnitPc → UnitPc
set_name name u = record u { name = take 255 name ++ (0 ∷ take 44 (drop 256 name)) }

-- m_EmptyUnits.emplace_back(new CUnitPC()), so many times. The number of a new object is what its
-- memory holds.
unfoldable pub make_units : ℕ → Game → Game
make_units zero g = g
make_units (suc n) g = make_units n (record g {
  units = update g.units g.next_unit (init_unit (g.units g.next_unit));
  next_unit = g.next_unit + 1;
  empty_units = g.empty_units ++ (g.next_unit ∷ []);
})

unfoldable pub init_game : Game → Game
unfolding make_units
init_game g = make_units pool_size_pc g

unfoldable pub take_unit : Game → Option (List ℕ × ℕ) → Option (ℕ × Game)
take_unit g none = none
take_unit g (some (rest, u)) =
    some (u, record g { users = g.users ++ (u ∷ []); empty_units = rest })

unfoldable pub refill : List ℕ → Game → Game
refill [] g = make_units pool_size_pc_extra g
refill (x ∷ xs) g = g

-- GetEmptyPC; `none` is `back()` of an empty vector.
unfoldable pub get_empty_pc : Game → Option (ℕ × Game)
unfolding take_unit refill
get_empty_pc g = let g' = refill g.empty_units g in take_unit g' (unsnoc g'.empty_units)

unfoldable pub release_pc : ℕ → Game → Game
release_pc u g =
    if contains u g.users
    then record g {
      users = swap_out u g.users;
      units = update g.units u (init_unit (g.units u));
      empty_units = g.empty_units ++ (u ∷ []);
    }
    else g

-- The CUnitPC of a user that logs in.
unfoldable pub set_user : ℕ → ℤ → List ℕ → ℕ → Game → Game
unfolding set_name
set_user sid unique name u g = record g {
  units =
      update g.units u (record (set_name name (g.units u)) { session_id = sid; unique = unique });
  session_id_to_pc = insert sid u g.session_id_to_pc;
}

-- The part of `Login` behind `GetEmptyPC`.
unfoldable pub enter : World → ℕ → ℤ → List ℕ → Option (ℕ × Game) → Option World
enter w p unique name none = none
enter w p unique name (some (u, g)) =
    some
      (record (set_session w p
        (record (w.session p) { on_disconnect = some DisconnectCb.post_logout })) {
          game = set_user (w.session p).session_id unique name u g;
        })

unfoldable pub login : World → ℕ → ℤ → List ℕ → Option World
unfolding enter
login w p unique name = enter w p unique name (get_empty_pc w.game)

unfoldable pub erase_key : ℕ → List (ℕ × ℕ) → List (ℕ × ℕ)
erase_key t [] = []
erase_key t ((u, p) ∷ m) = if u == t then m else (u, p) ∷ erase_key t m

unfoldable pub leave : ℕ → Option ℕ → Game → Game
leave sid none g = g
leave sid (some u) g =
    release_pc u (record g { session_id_to_pc = erase_key sid g.session_id_to_pc })

unfoldable pub logout : ℕ → Game → Game
unfolding leave
logout sid g = leave sid (lookup sid g.session_id_to_pc) g

unfoldable pub find_id : (ℕ → UnitPc) → ℕ → List ℕ → Option ℕ
find_id units sid [] = none
find_id units sid (u ∷ us) = if (units u).session_id == sid then some u else find_id units sid us

unfoldable pub find_user_by_id : Game → ℕ → Option ℕ
unfolding find_id
find_user_by_id g sid = find_id g.units sid g.users

abbrev equal_ℤ : ℤ → ℤ → Bool
equal_ℤ (pos a) (pos b) = a == b
equal_ℤ (pos a) (negsuc b) = false
equal_ℤ (negsuc a) (pos b) = false
equal_ℤ (negsuc a) (negsuc b) = a == b

unfoldable pub find_unique : (ℕ → UnitPc) → ℤ → List ℕ → Option ℕ
find_unique units unique [] = none
find_unique units unique (u ∷ us) =
    if equal_ℤ (units u).unique unique then some u else find_unique units unique us

unfoldable pub find_user_by_unique : Game → ℤ → Option ℕ
unfolding find_unique
find_user_by_unique g unique = find_unique g.units unique g.users

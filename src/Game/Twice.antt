-- ===== src/Game/Twice.antt =====
-- A second `Login` of one session, and its `Logout`.
use iocpserver.Prelude.{
  ℕ, ◌+◌, ◌<◌, ◌≡◌, ◌≢◌, refl, sym, ap, subst, ◌∙◌, inl, inr, true, none, some, List, [], ◌∷◌, ◌++◌,
  ◌==◌, if◌then◌else◌, arith, ==_refl, ==_ne, Bool-cases,
}
use iocpserver.Prelude.Int.{ℤ}
use iocpserver.World.{World, UnitPc, Game, update, update_other}
use iocpserver.SessionManager.{lookup, insert}
use iocpserver.SessionManager.Laws.{lookup-insert_self}
use iocpserver.Vector.{
  occurs, occurs-append, contains, swap_out, occurs-swap_out, contains-occurs_not,
}
use iocpserver.Game.{logout, leave, release_pc, erase_key, init_unit, login, set_user}
use iocpserver.Game.Pool.{IsPool, Taken, get_empty_pc-Taken}
use iocpserver.Game.Users.{entered, users-entered, before-entered, entered_world, login_enters}

-- An entry that is written over is erased with its key.
erased :
    (k u : ℕ) (m : List (ℕ × ℕ))
    → lookup k (erase_key k m) ≡ none
    → lookup k (erase_key k (insert k u m)) ≡ none
unfolding lookup erase_key insert
erased k u [] h = rw (==_refl k) refl
erased k u ((j, q) ∷ m) h = elim (Bool-cases (j == k)) [
  | inl hit ↦ rw (hit, hit) (rw hit at h)
  | inr miss ↦ rw (miss, miss, miss) (erased k u m (rw (miss, miss) at h))
]

-- The game once the object `u` of session `sid` is put back.
abbrev put_back : ℕ → ℕ → Game → Game
put_back sid u g = record g {
  users = swap_out u g.users;
  units = update g.units u (init_unit (g.units u));
  empty_units = g.empty_units ++ (u ∷ []);
  session_id_to_pc = erase_key sid g.session_id_to_pc;
}

logout_mapped :
    (sid u : ℕ) (g : Game)
    → lookup sid g.session_id_to_pc ≡ some u
    → contains u g.users ≡ true
    → logout sid g ≡ put_back sid u g
logout_mapped sid u g mapped there = begins ∙ leaves ∙ releases
  where
    unmapped : Game
    unmapped = record g { session_id_to_pc = erase_key sid g.session_id_to_pc }

    begins : logout sid g ≡ leave sid (some u) g
    begins = unfold logout in ap (λ o. leave sid o g) mapped

    leaves : leave sid (some u) g ≡ release_pc u unmapped
    leaves = unfold leave in refl

    releases : release_pc u unmapped ≡ put_back sid u g
    releases = unfold release_pc in rw there

logout_unmapped : (sid : ℕ) (g : Game) → lookup sid g.session_id_to_pc ≡ none → logout sid g ≡ g
logout_unmapped sid g e = unfold logout in (ap (λ o. leave sid o g) e ∙ (unfold leave in refl))

module _ (w : World) (p : ℕ) (unique : ℤ) (name : List ℕ) (v : ℕ)
    (in_use : 0 < occurs v w.game.users)
    (own : (w.game.units v).session_id ≡ (w.session p).session_id)
    (once : lookup
        (w.session p).session_id
        (erase_key (w.session p).session_id w.game.session_id_to_pc)
      ≡ none) where
  abbrev number : ℕ
  number = (w.session p).session_id

  -- `v` is in use under the number, which no `Logout` can change.
  abbrev Stays : Game → Type 0
  Stays g = (0 < occurs v g.users) × ((g.units v).session_id ≡ number) × (logout number g ≡ g)

  module _ (u : ℕ) (g : Game) (t : Taken w.game u g) where
    abbrev again : Game
    again = entered w p unique name u g t

    counted : (x : ℕ) → occurs x again.users ≡ occurs x w.game.users + (if u == x then 1 else 0)
    counted x =
        ap (occurs x) (users-entered w p unique name u g t)
        ∙ occurs-append x w.game.users (u ∷ [])
        ∙ (unfold occurs in omega arith)

    there : contains u again.users ≡ true
    there = elim (Bool-cases (contains u again.users)) [
      | inl found ↦ found
      | inr away ↦
          absurd (ground (arith, contains-occurs_not u again.users away, counted u, ==_refl u))
    ]

    other : u ≢ v
    other e = omega (arith, in_use, ap (λ x. occurs x w.game.users) e, t.was_free)

    still_there : 0 < occurs v (put_back number u again).users
    still_there =
        ground (arith, occurs-swap_out u v again.users there, counted v, in_use, ==_ne u v other)

    same_unit : (put_back number u again).units v ≡ w.game.units v
    same_unit =
        update_other again.units u (init_unit (again.units u)) v (λ e. other (sym e))
        ∙ before-entered w p unique name u g t v in_use

    unmapped : lookup number (put_back number u again).session_id_to_pc ≡ none
    unmapped =
        unfold entered in
        unfold set_user in
        erased number u g.session_id_to_pc
          (ap (λ m. lookup number (erase_key number m)) t.session_id_to_pc ∙ once)

    mapped : lookup number again.session_id_to_pc ≡ some u
    mapped = unfold entered in unfold set_user in lookup-insert_self number u g.session_id_to_pc

    left_behind : Stays (logout number again)
    left_behind = subst Stays (sym (logout_mapped number u again mapped there)) (
      still_there,
      ap (λ (x : UnitPc). x.session_id) same_unit ∙ own,
      logout_unmapped number (put_back number u again) unmapped,
    )

-- When a session under whose number the player object `v` is in use logs in again, while every
-- object is free or in use, once, and the map has the number once: the login succeeds, and after
-- the session's logout `v` is still in use under the number, and a further logout does nothing.
pub login_twice :
    (w : World) (p : ℕ) (unique : ℤ) (name : List ℕ) (v : ℕ)
    → IsPool w.game
    → 0 < occurs v w.game.users
    → (w.game.units v).session_id ≡ (w.session p).session_id
    → lookup (w.session p).session_id (erase_key (w.session p).session_id w.game.session_id_to_pc)
      ≡ none
    → (w' : World) × (login w p unique name ≡ some w')
      × (let g = logout (w.session p).session_id w'.game in
          (0 < occurs v g.users)
          × ((g.units v).session_id ≡ (w.session p).session_id)
          × (logout (w.session p).session_id g ≡ g))
login_twice w p unique name v h in_use own once =
    let (u, g, e, t) = get_empty_pc-Taken w.game h in
    (
      entered_world w p unique name u g t,
      login_enters w p unique name u g t e,
      (unfold entered_world in left_behind w p unique name v in_use own once u g t),
    )

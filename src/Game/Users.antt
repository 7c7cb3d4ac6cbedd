-- ===== src/Game/Users.antt =====
-- Finding a player after `Login`.
use iocpserver.Prelude.{
  ℕ, ◌<◌, ◌≡◌, ◌≢◌, refl, ap, ap₂, ◌∙◌, inl, inr, Bool, false, Option, none, some, List, [], ◌∷◌,
  ◌++◌, take, drop, ◌==◌, if◌then◌else◌, arith, ==_refl, ==_ne, ==_iff, Bool-cases,
}
use iocpserver.Prelude.Int.{ℤ}
use iocpserver.World.{
  World, Session, UnitPc, Game, DisconnectCb, post_logout, update_self, update_other, set_session,
}
use iocpserver.SessionManager.{lookup}
use iocpserver.SessionManager.Laws.{lookup-insert_self}
use iocpserver.Game.{find_id, find_user_by_id, get_empty_pc, enter, set_user, set_name, login}
use iocpserver.Vector.{occurs}
use iocpserver.Game.Pool.{IsPool, Taken, get_empty_pc-Taken}

find_id-same :
    (f g : ℕ → UnitPc) (sid : ℕ) (us : List ℕ)
    → ((v : ℕ) → 0 < occurs v us → f v ≡ g v)
    → find_id f sid us ≡ find_id g sid us
unfolding find_id occurs
find_id-same f g sid [] h = refl
find_id-same f g sid (u ∷ us) h =
    let here : f u ≡ g u = h u (rw (==_refl u) (omega arith)) in
    let rest = find_id-same f g sid us (λ v k. h v (omega (arith, k))) in rw (here, rest)

find_id-append :
    (f : ℕ → UnitPc) (sid u : ℕ) (us : List ℕ)
    → find_id f sid (us ++ (u ∷ [])) ≡ (elim (find_id f sid us) [
      | none ↦ if (f u).session_id == sid then some u else none
      | some v ↦ some v
    ])
unfolding find_id
find_id-append f sid u [] = refl
find_id-append f sid u (v ∷ us) = elim (Bool-cases ((f v).session_id == sid)) [
  | inl hit ↦ rw hit
  | inr miss ↦ rw miss (find_id-append f sid u us)
]

-- A user found is in the list and has the id; a user not found is not there.
pub find_id-none :
    (f : ℕ → UnitPc) (sid v : ℕ) (us : List ℕ)
    → find_id f sid us ≡ none
    → 0 < occurs v us
    → (f v).session_id ≢ sid
unfolding find_id occurs
find_id-none f sid v [] h k e = omega (arith, k)
find_id-none f sid v (u ∷ us) h k e = elim (Bool-cases (u == v)) [
  | inl hit ↦ cc (h, (==_iff u v).0 hit, e, ==_refl sid)
  | inr miss ↦ elim (Bool-cases ((f u).session_id == sid)) [
    | inl here ↦ cc (rw here at h)
    | inr on ↦ find_id-none f sid v us (rw on at h) (omega (arith, k, rw miss at k)) e
  ]
]

-- What `Login` of session `p` makes of a world: one object that was free is in use, found by the
-- session's id, with the number and the name; the session's disconnect will post a logout; every
-- other id finds what it found.
pub record LoggedIn (w : World) (p : ℕ) (unique : ℤ) (name : List ℕ) (w' : World) : Type 0 where
  pub unit : ℕ
  pub pool : IsPool w'.game
  pub was_free : occurs unit w.game.users ≡ 0
  pub users : w'.game.users ≡ w.game.users ++ (unit ∷ [])
  pub found : find_user_by_id w'.game (w.session p).session_id ≡ some unit
  pub mapped : lookup (w.session p).session_id w'.game.session_id_to_pc ≡ some unit
  pub unique_set : (w'.game.units unit).unique ≡ unique
  pub name_set : (w'.game.units unit).name ≡ take 255 name ++ (0 ∷ take 44 (drop 256 name))
  pub callback : (w'.session p).on_disconnect ≡ some post_logout
  pub kept : (v : ℕ) → 0 < occurs v w.game.users → w'.game.units v ≡ w.game.units v
  pub others :
      (j : ℕ) → (w.session p).session_id ≢ j → find_user_by_id w'.game j ≡ find_user_by_id w.game j

module _ (w : World) (p : ℕ) (unique : ℤ) (name : List ℕ) (u : ℕ) (g : Game)
    (t : Taken w.game u g) where
  abbrev sid : ℕ
  sid = (w.session p).session_id

  unfoldable pub entered : Game
  entered = set_user sid unique name u g

  unit-entered :
      entered.units u ≡ record (set_name name (g.units u)) { session_id = sid; unique = unique }
  unfolding entered set_user
  unit-entered =
      update_self g.units u
        (record (set_name name (g.units u)) { session_id = sid; unique = unique })

  pub users-entered : entered.users ≡ w.game.users ++ (u ∷ [])
  unfolding entered set_user
  users-entered = t.users

  -- The users there were before are as they were.
  pub before-entered : (v : ℕ) → 0 < occurs v w.game.users → entered.units v ≡ w.game.units v
  unfolding entered set_user
  before-entered v k =
      update_other g.units u
        (record (set_name name (g.units u)) { session_id = sid; unique = unique }) v
        (λ e. omega (arith, k, ap (λ x. occurs x w.game.users) e, t.was_free))
      ∙ t.kept v k

  find-entered :
      (j : ℕ)
      → find_user_by_id entered j ≡ (elim (find_user_by_id w.game j) [
        | none ↦ if sid == j then some u else none
        | some v ↦ some v
      ])
  find-entered j =
      started
      ∙ find_id-append entered.units j u w.game.users
      ∙ ap₂ choose (find_id-same entered.units w.game.units j w.game.users before-entered)
          (ap (λ (x : UnitPc). x.session_id) unit-entered)
      ∙ final
    where
      choose : Option ℕ → ℕ → Option ℕ
      choose o s = elim o [ none ↦ if s == j then some u else none | some v ↦ some v ]

      started : find_user_by_id entered j ≡ find_id entered.units j (w.game.users ++ (u ∷ []))
      started = unfold find_user_by_id in ap (find_id entered.units j) users-entered

      final : choose (find_id w.game.units j w.game.users) sid ≡ (elim (find_user_by_id w.game j) [
        | none ↦ if sid == j then some u else none
        | some v ↦ some v
      ])
      final = unfold find_user_by_id in refl

  unfoldable pub entered_world : World
  entered_world =
      record (set_session w p
        (record (w.session p) { on_disconnect = some DisconnectCb.post_logout })) { game = entered }

  entered-LoggedIn : find_user_by_id w.game sid ≡ none → LoggedIn w p unique name entered_world
  unfolding entered_world
  entered-LoggedIn new = record {
    unit = u;
    pool = unfold entered in (unfold set_user in record { once = t.pool.once });
    was_free = t.was_free;
    users = users-entered;
    found = find-entered sid ∙ rw (new, ==_refl sid);
    mapped = unfold entered in (unfold set_user in lookup-insert_self sid u g.session_id_to_pc);
    unique_set = ap (λ (x : UnitPc). x.unique) unit-entered;
    name_set = ap (λ (x : UnitPc). x.name) unit-entered ∙ (unfold set_name in refl);
    callback =
        ap (λ (s : Session). s.on_disconnect)
          (update_self w.session p
            (record (w.session p) { on_disconnect = some DisconnectCb.post_logout }));
    kept = before-entered;
    others = λ j ne.
        find-entered j
        ∙ ap (λ b. pick (find_user_by_id w.game j) b) (==_ne sid j ne)
        ∙ picked (find_user_by_id w.game j);
  }
    where
      pick : Option ℕ → Bool → Option ℕ
      pick o b = elim o [ none ↦ if b then some u else none | some v ↦ some v ]

      picked : (o : Option ℕ) → pick o false ≡ o
      picked none = refl
      picked (some v) = refl

  pub login_enters : get_empty_pc w.game ≡ some (u, g) → login w p unique name ≡ some entered_world
  login_enters e = begins ∙ ends
    where
      begins : login w p unique name ≡ enter w p unique name (some (u, g))
      begins = unfold login in ap (enter w p unique name) e

      ends : enter w p unique name (some (u, g)) ≡ some entered_world
      ends = unfold enter in (unfold entered_world in (unfold entered in refl))

-- While every player object is free or in use, once, `Login` of a session under whose id no user
-- is succeeds with an object that was free; it is found under the id and holds the number and the
-- name, the session's disconnect will post a logout, and every other id finds what it found.
pub login-LoggedIn :
    (w : World) (p : ℕ) (unique : ℤ) (name : List ℕ)
    → IsPool w.game
    → find_user_by_id w.game (w.session p).session_id ≡ none
    → (w' : World) × (login w p unique name ≡ some w') × LoggedIn w p unique name w'
login-LoggedIn w p unique name h new =
    let (u, g, e, t) = get_empty_pc-Taken w.game h in
    (
      entered_world w p unique name u g t,
      login_enters w p unique name u g t e,
      entered-LoggedIn w p unique name u g t new,
    )

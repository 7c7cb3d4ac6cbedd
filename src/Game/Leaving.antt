-- ===== src/Game/Leaving.antt =====
-- The players after a `Logout`.
use iocpserver.Prelude.{
  ℕ, ◌+◌, ◌<◌, ◌≡◌, ◌≢◌, refl, sym, ap, ◌∙◌, inl, inr, true, none, some, List, [], ◌∷◌, ◌==◌,
  if◌then◌else◌, arith, ==_refl, ==_ne, Bool-cases,
}
use iocpserver.Prelude.Int.{ℤ}
use iocpserver.World.{World, UnitPc, Game, update, update_other}
use iocpserver.Game.{find_id, find_user_by_id, logout, leave, release_pc, erase_key, init_unit}
use iocpserver.Vector.{
  occurs, occurs-append, contains, swap_out, occurs-swap_out, contains-occurs_not,
}
use iocpserver.Game.Pool.{IsPool, logout-IsPool}
use iocpserver.Game.Users.{find_id-none, LoggedIn}

absent-find_id :
    (f : ℕ → UnitPc) (sid : ℕ) (us : List ℕ)
    → ((v : ℕ) → 0 < occurs v us → (f v).session_id ≢ sid)
    → find_id f sid us ≡ none
unfolding find_id occurs
absent-find_id f sid [] h = refl
absent-find_id f sid (u ∷ us) h =
    rw (==_ne (f u).session_id sid (h u (rw (==_refl u) (omega arith))))
      (absent-find_id f sid us (λ v k. h v (omega (arith, k))))

-- After a `Login` of a session under whose id no user was, the `Logout` of that id puts the object
-- back: nobody is found under the id, every object is free or in use, once, and the users are
-- those of before the login.
pub logout-LoggedIn :
    (w w' : World) (p : ℕ) (unique : ℤ) (name : List ℕ)
    → find_user_by_id w.game (w.session p).session_id ≡ none
    → LoggedIn w p unique name w'
    → let g = logout (w.session p).session_id w'.game in
      (find_user_by_id g (w.session p).session_id ≡ none)
      × IsPool g
      × ((v : ℕ) → occurs v g.users ≡ occurs v w.game.users)
logout-LoggedIn w w' p unique name new l = (gone, logout-IsPool sid w'.game l.pool, same)
  where
    sid : ℕ
    sid = (w.session p).session_id

    g : Game
    g = logout sid w'.game

    counted :
        (v : ℕ) → occurs v w'.game.users ≡ occurs v w.game.users + (if l.unit == v then 1 else 0)
    counted v = ap (occurs v) l.users ∙ occurs-append v w.game.users (l.unit ∷ []) ∙ last
      where
        last :
            occurs v w.game.users + occurs v (l.unit ∷ [])
            ≡ occurs v w.game.users + (if l.unit == v then 1 else 0)
        last = unfold occurs in omega arith

    there : contains l.unit w'.game.users ≡ true
    there = elim (Bool-cases (contains l.unit w'.game.users)) [
      | inl in_use ↦ in_use
      | inr away ↦ absurd (
          ground
            (arith, contains-occurs_not l.unit w'.game.users away, counted l.unit, ==_refl l.unit))
    ]

    -- What `ReleasePC` is given.
    unmapped : Game
    unmapped = record (w'.game) { session_id_to_pc = erase_key sid w'.game.session_id_to_pc }

    is_released : g ≡ release_pc l.unit unmapped
    is_released = begins ∙ ends
      where
        begins : g ≡ leave sid (some l.unit) w'.game
        begins = unfold logout in ap (λ o. leave sid o w'.game) l.mapped

        ends : leave sid (some l.unit) w'.game ≡ release_pc l.unit unmapped
        ends = unfold leave in refl

    users_left : g.users ≡ swap_out l.unit w'.game.users
    users_left = ap (λ (x : Game). x.users) is_released ∙ (unfold release_pc in rw there)

    units_left : g.units ≡ update w'.game.units l.unit (init_unit (w'.game.units l.unit))
    units_left = ap (λ (x : Game). x.units) is_released ∙ (unfold release_pc in rw there)

    same : (v : ℕ) → occurs v g.users ≡ occurs v w.game.users
    same v =
        ground
          (arith, ap (occurs v) users_left, occurs-swap_out l.unit v w'.game.users there, counted v)

    unlike : (v : ℕ) → 0 < occurs v g.users → (g.units v).session_id ≢ sid
    unlike v k e =
        find_id-none w.game.units sid v w.game.users (unfold find_user_by_id in new)
          (omega (arith, k, same v))
          (ap (λ (x : UnitPc). x.session_id)
              (sym (
                ap (λ f. f v) units_left
                ∙ update_other w'.game.units l.unit (init_unit (w'.game.units l.unit)) v
                    (λ q. omega (arith, k, same v, ap (λ x. occurs x w.game.users) q, l.was_free))
                ∙ l.kept v (omega (arith, k, same v))))
            ∙ e)

    gone : find_user_by_id g sid ≡ none
    gone = unfold find_user_by_id in absent-find_id g.units sid g.users unlike

-- ===== src/Game/Pool.antt =====
-- Every CUnitPC is in use or free, and never twice.
use iocpserver.Prelude.{
  ℕ, zero, suc, ◌+◌, ◌<◌, ◌≡◌, refl, sym, ap, subst, ◌∙◌, inl, inr, Option, none, some, List, [],
  ◌∷◌, ◌++◌, ltb, ◌==◌, if◌then◌else◌, arith, ==_refl, Bool-cases,
}
use iocpserver.Prelude.Int.{ℤ}
use iocpserver.World.{World, Game, update_other}
use iocpserver.SessionManager.{lookup}
use iocpserver.Game.{
  init_unit, make_units, refill, take_unit, get_empty_pc, release_pc, set_user, login, leave,
  logout, pool_size_pc_extra, enter,
}
use iocpserver.Vector.{unsnoc, contains, occurs, occurs-append, unsnoc_lem, occurs-swap_out}

-- Each object made stands exactly once in `m_Users` and `m_EmptyUnits` together, and nothing else
-- stands there.
pub record IsPool (g : Game) : Type 0 where
  pub once :
      (u : ℕ) → occurs u g.users + occurs u g.empty_units ≡ (if ltb u g.next_unit then 1 else 0)

pub make_units-IsPool : (n : ℕ) (g : Game) → IsPool g → IsPool (make_units n g)
unfolding make_units
make_units-IsPool zero g h = h
make_units-IsPool (suc n) g h = make_units-IsPool n _ (record {
  once = λ u. ground (arith, h.once u, occurs-append u g.empty_units (g.next_unit ∷ []), single u);
})
  where
    single : (u : ℕ) → occurs u (g.next_unit ∷ []) ≡ (if g.next_unit == u then 1 else 0)
    single u = unfold occurs in omega arith

-- A free object taken: it was not in use, and is now in use once.
pub record Taken (g : Game) (u : ℕ) (g' : Game) : Type 0 where
  pub pool : IsPool g'
  pub was_free : occurs u g.users ≡ 0
  pub users : g'.users ≡ g.users ++ (u ∷ [])
  pub session_id_to_pc : g'.session_id_to_pc ≡ g.session_id_to_pc
  pub kept : (v : ℕ) → 0 < occurs v g.users → g'.units v ≡ g.units v

take_unit-Taken :
    (g : Game) (x : ℕ) (xs : List ℕ)
    → g.empty_units ≡ x ∷ xs
    → IsPool g
    → (u : ℕ) × (g' : Game) × (take_unit g (unsnoc g.empty_units) ≡ some (u, g')) × Taken g u g'
take_unit-Taken g x xs e h =
    let (ys, u, last, split) = unsnoc_lem x xs in
    (
      u,
      record g { users = g.users ++ (u ∷ []); empty_units = ys },
      ap (take_unit g) (ap unsnoc e ∙ last) ∙ (unfold take_unit in refl),
      record {
        pool = record {
          once = λ v. omega (
            arith,
            h.once v,
            occurs-append v g.users (u ∷ []),
            ap (occurs v) (e ∙ split),
            occurs-append v ys (u ∷ []),
          );
        };
        was_free =
            ground
              (arith, h.once u, ap (occurs u) (e ∙ split), occurs-append u ys (u ∷ []), self u);
        users = refl;
        session_id_to_pc = refl;
        kept = λ v k. refl;
      },
    )
  where
    self : (u : ℕ) → occurs u (u ∷ []) ≡ 1
    self u = unfold occurs in rw (==_refl u)

append_some : (xs : List ℕ) (y : ℕ) → (x : ℕ) × (rest : List ℕ) × (xs ++ (y ∷ []) ≡ x ∷ rest)
append_some [] y = (y, [], refl)
append_some (x ∷ xs) y = (x, xs ++ (y ∷ []), refl)

made_more :
    (n : ℕ) (g : Game)
    → ((x : ℕ) × (xs : List ℕ) × (g.empty_units ≡ x ∷ xs))
    → (x : ℕ) × (xs : List ℕ) × ((make_units n g).empty_units ≡ x ∷ xs)
unfolding make_units
made_more zero g h = h
made_more (suc n) g h = made_more n _ (append_some g.empty_units g.next_unit)

made_some :
    (n : ℕ) (g : Game) → (x : ℕ) × (xs : List ℕ) × ((make_units (suc n) g).empty_units ≡ x ∷ xs)
unfolding make_units
made_some n g = made_more n _ (append_some g.empty_units g.next_unit)

made_keeps :
    (n : ℕ) (g : Game)
    → ((make_units n g).users ≡ g.users) × ((make_units n g).session_id_to_pc ≡ g.session_id_to_pc)
unfolding make_units
made_keeps zero g = (refl, refl)
made_keeps (suc n) g = made_keeps n _

-- The objects made before stay as they are.
made_old : (n : ℕ) (g : Game) (v : ℕ) → v < g.next_unit → (make_units n g).units v ≡ g.units v
unfolding make_units
made_old zero g v h = refl
made_old (suc n) g v h =
    made_old n _ v (omega arith)
    ∙ update_other g.units g.next_unit (init_unit (g.units g.next_unit)) v (omega arith)

in_use_old : (g : Game) (v : ℕ) → IsPool g → 0 < occurs v g.users → v < g.next_unit
in_use_old g v h k = ground (arith, h.once v)

-- What `GetEmptyPC` takes its object from.
record Refilled (g g' : Game) : Type 0 where
  pool : IsPool g'
  users : g'.users ≡ g.users
  session_id_to_pc : g'.session_id_to_pc ≡ g.session_id_to_pc
  some_free : (x : ℕ) × (xs : List ℕ) × (g'.empty_units ≡ x ∷ xs)
  kept : (v : ℕ) → 0 < occurs v g.users → g'.units v ≡ g.units v

refill-Refilled :
    (xs : List ℕ) (g : Game) → g.empty_units ≡ xs → IsPool g → Refilled g (refill xs g)
unfolding refill
refill-Refilled [] g e h = record {
  pool = make_units-IsPool pool_size_pc_extra g h;
  users = (made_keeps pool_size_pc_extra g).0;
  session_id_to_pc = (made_keeps pool_size_pc_extra g).1;
  some_free = made_some 9 g;
  kept = λ v k. made_old pool_size_pc_extra g v (in_use_old g v h k);
}
refill-Refilled (x ∷ xs) g e h = record {
  pool = h;
  users = refl;
  session_id_to_pc = refl;
  some_free = (x, xs, e);
  kept = λ v k. refl;
}

-- While every player object is free or in use, once, `GetEmptyPC` has an object to give, gives one
-- that was not in use, and keeps the others.
pub get_empty_pc-Taken :
    (g : Game) → IsPool g → (u : ℕ) × (g' : Game) × (get_empty_pc g ≡ some (u, g')) × Taken g u g'
get_empty_pc-Taken g h =
    let r = refill-Refilled g.empty_units g refl h in
    let (x, xs, e) = r.some_free in
    let (u, g', took, t) = take_unit-Taken (refill g.empty_units g) x xs e r.pool in
    (
      u,
      g',
      (unfold get_empty_pc in took),
      record {
        pool = t.pool;
        was_free = ap (occurs u) (sym r.users) ∙ t.was_free;
        users = t.users ∙ ap (λ us. us ++ (u ∷ [])) r.users;
        session_id_to_pc = t.session_id_to_pc ∙ r.session_id_to_pc;
        kept = λ v k. t.kept v (subst (λ us. 0 < occurs v us) (sym r.users) k) ∙ r.kept v k;
      },
    )

pub release_pc-IsPool : (u : ℕ) (g : Game) → IsPool g → IsPool (release_pc u g)
unfolding release_pc
release_pc-IsPool u g h = elim (Bool-cases (contains u g.users)) [
  | inl there ↦ rw there (record {
    once = λ v. ground (
      arith,
      h.once v,
      occurs-swap_out u v g.users there,
      occurs-append v g.empty_units (u ∷ []),
      single v,
    );
  })
  | inr away ↦ rw away h
]
  where
    single : (v : ℕ) → occurs v (u ∷ []) ≡ (if u == v then 1 else 0)
    single v = unfold occurs in omega arith

-- `Logout` of any session id keeps the pool.
pub logout-IsPool : (sid : ℕ) (g : Game) → IsPool g → IsPool (logout sid g)
unfolding logout
logout-IsPool sid g h = left (lookup sid g.session_id_to_pc)
  where
    left : (o : Option ℕ) → IsPool (leave sid o g)
    left none = unfold leave in h
    left (some u) = unfold leave in release_pc-IsPool u _ (record { once = h.once })

-- `Login` never fails for want of a CUnitPC, and keeps the pool.
pub login-IsPool :
    (w : World) (p : ℕ) (unique : ℤ) (name : List ℕ)
    → IsPool w.game
    → (w' : World) × (login w p unique name ≡ some w') × IsPool w'.game
unfolding login
login-IsPool w p unique name h =
    let (u, g, e, t) = get_empty_pc-Taken w.game h in
    (
      _,
      ap (enter w p unique name) e ∙ (unfold enter in refl),
      unfold set_user in record { once = t.pool.once },
    )

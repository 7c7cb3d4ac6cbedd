-- ===== src/SessionManager/Laws.antt =====
-- The pool as a stack, and the map from tokens to sessions.
use iocpserver.Prelude.{
  ℕ, ◌≡◌, ◌≢◌, refl, sym, ap, ◌∙◌, inl, inr, some, List, [], ◌∷◌, ◌==◌, if◌then◌else◌, ==_refl,
  ==_ne, ==_iff, Bool-cases,
}
use iocpserver.World.{World, SessionType, update_type, value, update_self}
use iocpserver.SessionManager.{
  init, stack, push, release, get_empty_session, insert, register_active, erase_session,
  unregister_active, lookup, find_by_token,
}

-- The session released last is the next one handed out, as `Init` leaves it; the rest of its stack
-- and the active sessions are as before.
pub get_empty_session-release :
    (w : World) (type : SessionType) (p : ℕ)
    → let (q, w') = get_empty_session (release w type p) type in
      (q ≡ some p)
      × (w'.session p ≡ init (w.session p) type)
      × (stack (w'.manager.pool type) ≡ stack (w.manager.pool type))
      × (w'.manager.active ≡ w.manager.active)
unfolding get_empty_session release push
get_empty_session-release w type p =
    rw (==_refl (value type)) (refl, update_self w.session p (init (w.session p) type), top, refl)
  where
    top :
        stack (
          update_type
            (update_type w.manager.pool type (some (p ∷ stack (w.manager.pool type))))
            type
            (some (stack (w.manager.pool type)))
            type)
        ≡ stack (w.manager.pool type)
    top = rw (==_refl (value type))

pub lookup-insert_self : (t p : ℕ) (m : List (ℕ × ℕ)) → lookup t (insert t p m) ≡ some p
unfolding lookup insert
lookup-insert_self t p [] = rw (==_refl t)
lookup-insert_self t p ((u, q) ∷ m) = elim (Bool-cases (u == t)) [
  | inl hit ↦ rw (hit, hit)
  | inr miss ↦ rw (miss, miss) (lookup-insert_self t p m)
]

pub lookup-insert_other :
    (t j p : ℕ) (m : List (ℕ × ℕ)) → t ≢ j → lookup j (insert t p m) ≡ lookup j m
unfolding lookup insert
lookup-insert_other t j p [] ne = rw (==_ne t j ne)
lookup-insert_other t j p ((u, q) ∷ m) ne = elim (Bool-cases (u == t)) [
  | inl hit ↦ rw (hit, ==_ne u j (λ e. ne (sym ((==_iff u t).0 hit) ∙ e)))
  | inr miss ↦ rw miss (elim (Bool-cases (u == j)) [
    | inl there ↦ rw there
    | inr on ↦ rw on (lookup-insert_other t j p m ne)
  ])
]

-- A session that is registered is found under the token it was given, and every other token finds
-- what it found.
pub find_by_token-register_active :
    (w : World) (p j : ℕ)
    → let (t, w') = register_active w p in
      (find_by_token w' t ≡ some p) × (t ≢ j → find_by_token w' j ≡ find_by_token w j)
unfolding register_active find_by_token
find_by_token-register_active w p j = (
  lookup-insert_self w.manager.next_token p w.manager.active,
  lookup-insert_other w.manager.next_token j p w.manager.active,
)

-- Entries of other sessions only.
abbrev pub IsWithout : ℕ → List (ℕ × ℕ) → Type 0
IsWithout p [] = Unit {0}
IsWithout p ((t, q) ∷ m) = (q ≢ p) × IsWithout p m

-- At most one entry for the session.
abbrev pub IsOnce : ℕ → List (ℕ × ℕ) → Type 0
IsOnce p [] = Unit {0}
IsOnce p ((t, q) ∷ m) = if q == p then IsWithout p m else IsOnce p m

IsWithout-lookup : (p t : ℕ) (m : List (ℕ × ℕ)) → IsWithout p m → lookup t m ≢ some p
unfolding lookup
IsWithout-lookup p t [] h e = cc
IsWithout-lookup p t ((u, q) ∷ m) h e = elim (Bool-cases (u == t)) [
  | inl hit ↦ h.0 (cc (rw hit at e))
  | inr miss ↦ IsWithout-lookup p t m h.1 (rw miss at e)
]

erase-IsWithout : (p : ℕ) (m : List (ℕ × ℕ)) → IsOnce p m → IsWithout p (erase_session p m)
unfolding erase_session
erase-IsWithout p [] h = tt
erase-IsWithout p ((t, q) ∷ m) h = elim (Bool-cases (q == p)) [
  | inl hit ↦ rw hit (rw hit at h)
  | inr miss ↦
      rw miss
        ((λ e. cc (sym miss, ap (λ k. k == p) e, ==_refl p)), erase-IsWithout p m (rw miss at h))
]

lookup-erase :
    (p t : ℕ) (m : List (ℕ × ℕ)) → lookup t m ≢ some p → lookup t (erase_session p m) ≡ lookup t m
unfolding lookup erase_session
lookup-erase p t [] ne = refl
lookup-erase p t ((u, q) ∷ m) ne = elim (Bool-cases (q == p)) [
  | inl gone ↦ elim (Bool-cases (u == t)) [
    | inl hit ↦ absurd (ne (rw hit (ap some ((==_iff q p).0 gone))))
    | inr miss ↦ rw (gone, miss)
  ]
  | inr kept ↦ elim (Bool-cases (u == t)) [
    | inl hit ↦ rw (kept, hit)
    | inr miss ↦ rw (kept, miss) (lookup-erase p t m (rw miss at ne))
  ]
]

-- Once a session that was registered at most once is unregistered, no token finds it, and every
-- token that did not find it finds what it found.
pub find_by_token-unregister_active :
    (w : World) (p t : ℕ)
    → IsOnce p w.manager.active
    → (find_by_token (unregister_active w p) t ≢ some p)
      × (find_by_token w t ≢ some p → find_by_token (unregister_active w p) t ≡ find_by_token w t)
unfolding unregister_active find_by_token
find_by_token-unregister_active w p t once = (
  IsWithout-lookup p t (erase_session p w.manager.active) (erase-IsWithout p w.manager.active once),
  lookup-erase p t w.manager.active,
)

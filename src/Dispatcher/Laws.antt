-- ===== src/Dispatcher/Laws.antt =====
-- Which handler a packet reaches.
use iocpserver.Prelude.{
  ℕ, ◌≤◌, ◌<◌, ◌≡◌, ◌≢◌, refl, ◌⊎◌, inl, inr, Option, none, some, List, [], ◌∷◌, ◌++◌, ◌==◌, ltb,
  if◌then◌else◌, sym, le→ltb, lt→ltb, Bool-cases, ==_refl, ==_ne, Option-cases,
}
use iocpserver.Packet.Header.{header_id}
use iocpserver.Dispatcher.{Handler, Handlers, find, register, dispatch}

module _ {ℓ} {W : Type ℓ} where
  abbrev or_else : Option (Handler W) → Option (Handler W) → Option (Handler W)
  or_else none d = d
  or_else (some h) d = some h

  find-append :
      (hs : Handlers W) (id j : ℕ) (h : Handler W)
      → find j (hs ++ ((id, h) ∷ [])) ≡ or_else (find j hs) (if id == j then some h else none)
  unfolding find
  find-append [] id j h = refl
  find-append ((i, g) ∷ hs) id j h = elim (Bool-cases (i == j)) [
    | inl hit ↦ rw hit
    | inr miss ↦ rw miss (find-append hs id j h)
  ]

  or_else-none : (o : Option (Handler W)) → or_else o none ≡ o
  or_else-none none = refl
  or_else-none (some h) = refl

  register_new :
      (id : ℕ) (h : Handler W) (hs : Handlers W)
      → find id hs ≡ none
      → register id h hs ≡ hs ++ ((id, h) ∷ [])
  unfolding register
  register_new id h hs e = rw e

  -- The first handler registered for an id stays: registering the id again changes nothing.
  pub register_old :
      (id : ℕ) (h g : Handler W) (hs : Handlers W) → find id hs ≡ some g → register id h hs ≡ hs
  unfolding register
  register_old id h g hs e = rw e

  pub find-register_self :
      (id : ℕ) (h : Handler W) (hs : Handlers W)
      → find id hs ≡ none
      → find id (register id h hs) ≡ some h
  find-register_self id h hs e = rw (register_new id h hs e, find-append hs id id h, e, ==_refl id)

  pub find-register_other :
      (id j : ℕ) (h : Handler W) (hs : Handlers W) → id ≢ j → find j (register id h hs) ≡ find j hs
  find-register_other id j h hs ne = elim (Option-cases (find id hs)) [
    | inl new ↦
        rw (register_new id h hs new, find-append hs id j h, ==_ne id j ne)
          (or_else-none (find j hs))
    | inr (g, old) ↦ rw (register_old id h g hs old)
  ]

  module _ (hs : Handlers W) (w : W) (p : ℕ) (bytes : List ℕ) (size : ℕ) where
    pub dispatch_found :
        (h : Handler W)
        → 4 ≤ size
        → find (header_id bytes) hs ≡ some h
        → dispatch hs w p bytes size ≡ h w p bytes size
    unfolding dispatch
    dispatch_found h long e = rw (le→ltb size 4 long, e)

    pub dispatch_dropped :
        (size < 4) ⊎ (find (header_id bytes) hs ≡ none) → dispatch hs w p bytes size ≡ some w
    unfolding dispatch
    dispatch_dropped (inl short) = rw (lt→ltb size 4 short)
    dispatch_dropped (inr e) = elim (Bool-cases (ltb size 4)) [
      | inl short ↦ rw short
      | inr long ↦ rw (long, e)
    ]

  -- Once `h` is registered for an id that had no handler, every packet of that id and of at least
  -- a header reaches `h`, and every packet of another id is treated as before, even when the id is
  -- registered again.
  pub dispatch-register :
      (hs : Handlers W) (id : ℕ) (h g : Handler W) (w : W) (p : ℕ) (bytes : List ℕ) (size : ℕ)
      → find id hs ≡ none
      → 4 ≤ size
      → let hs' = register id g (register id h hs) in
        (header_id bytes ≡ id → dispatch hs' w p bytes size ≡ h w p bytes size)
        × (header_id bytes ≢ id → dispatch hs' w p bytes size ≡ dispatch hs w p bytes size)
  dispatch-register hs id h g w p bytes size new long =
      rw (register_old id g h (register id h hs) (find-register_self id h hs new)) (
        (λ e.
            dispatch_found (register id h hs) w p bytes size h long
              (rw e (find-register_self id h hs new))),
        (λ ne. same_find (find-register_other id (header_id bytes) h hs (λ e. ne (sym e)))),
      )
    where
      same_find :
          find (header_id bytes) (register id h hs) ≡ find (header_id bytes) hs
          → dispatch (register id h hs) w p bytes size ≡ dispatch hs w p bytes size
      same_find e = unfold dispatch in rw e

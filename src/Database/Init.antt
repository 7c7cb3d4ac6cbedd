-- ===== src/Database/Init.antt =====
-- The connections that ConnPool() makes, and what it leaves when it throws.
use iocpserver.Prelude.{
  ℕ, zero, suc, ◌+◌, ◌≡◌, refl, sym, ap, subst, ◌∙◌, inl, inr, Bool, true, false, Option, none,
  some, List, [], ◌∷◌, ◌++◌, length, length-append, arith, if◌then◌else◌, Bool-cases, ◌==◌,
}
use iocpserver.Database.{
  OdbcCall, alloc_dbc, set_timeouts, driver_connect, free_dbc, Calls, Odbc, Conn, ConnPool,
  disconnect_conn, free_conn, free_all, new_conn, connect, connected_conn, fill_pool, new_pool,
  release_conn,
}
use iocpserver.Database.Pool.{first_free}

-- 1 if the handles are the same.
abbrev pub one_of : ℕ → ℕ → ℕ
one_of x h = if h == x then 1 else 0

-- The times that the connection handle was given, told by its timeouts, and that it was freed again.
abbrev pub opens : ℕ → OdbcCall → ℕ
opens x (set_timeouts h) = one_of x h
opens x c = 0

abbrev pub frees : ℕ → OdbcCall → ℕ
frees x (free_dbc h) = one_of x h
frees x c = 0

unfoldable pub count : (OdbcCall → ℕ) → Calls → ℕ
count f [] = 0
count f (c ∷ t) = f c + count f t

-- The connections with the handle.
unfoldable pub uses : ℕ → List Conn → ℕ
uses x [] = 0
uses x (c ∷ cs) = one_of x c.handle + uses x cs

pub uses-append : (x : ℕ) (cs ds : List Conn) → uses x (cs ++ ds) ≡ uses x cs + uses x ds
unfolding uses
uses-append x [] ds = omega arith
uses-append x (c ∷ cs) ds = omega (arith, uses-append x cs ds)

-- After the second trace each handle is in use so many times more than after the first.
abbrev pub IsMore : (ℕ → ℕ) → Calls → Calls → Type 0
IsMore more t t' =
    (x : ℕ)
    → count (opens x) t' + count (frees x) t ≡ count (opens x) t + count (frees x) t' + more x

-- Each handle given has been freed as often.
abbrev pub none_more : ℕ → ℕ
none_more x = 0

module _ (x : ℕ) where
  pub disconnect-counts :
      (c : Conn) (t : Calls)
      → (count (opens x) (disconnect_conn c t).1 ≡ count (opens x) t)
        × (count (frees x) (disconnect_conn c t).1 ≡ count (frees x) t)
        × ((disconnect_conn c t).0.handle ≡ c.handle)
  unfolding disconnect_conn
  disconnect-counts c t = elim (Bool-cases c.connected) [
    | inl open_one ↦ rw open_one (unfold count in (omega arith, omega arith, refl))
    | inr closed_one ↦ rw closed_one (refl, refl, refl)
  ]

  free_conn-counts :
      (c : Conn) (t : Calls)
      → (count (opens x) (free_conn c t) ≡ count (opens x) t)
        × (count (frees x) (free_conn c t) ≡ count (frees x) t + one_of x c.handle)
  unfolding free_conn
  free_conn-counts c t =
      let (a, b, e) = disconnect-counts c t in
      (unfold count in (omega (arith, a), omega (arith, b, ap (one_of x) e)))

  pub free_all-counts :
      (cs : List Conn) (t : Calls)
      → (count (opens x) (free_all cs t) ≡ count (opens x) t)
        × (count (frees x) (free_all cs t) ≡ count (frees x) t + uses x cs)
  unfolding free_all uses
  free_all-counts [] t = (refl, omega arith)
  free_all-counts (c ∷ cs) t =
      let (a, b) = free_conn-counts c t in
      let (d, e) = free_all-counts cs (free_conn c t) in (d ∙ a, omega (arith, e, b))

-- What comes of one connection: it is connected, or its handle is freed again.
abbrev Made : Calls → Option Conn × Calls → Type 0
Made t (none, t') = IsMore none_more t t'
Made t (some c, t') = (c.connected ≡ true) × IsMore (λ x. one_of x c.handle) t t'

after : Bool × Conn × Calls → Option Conn × Calls
after (true, c, t) = (some c, t)
after (false, c, t) = (none, free_conn c t)

after_if :
    (r : Bool × Conn × Calls)
    → (if r.0 then (some r.1, r.2) else (none, free_conn r.1 r.2)) ≡ after r
unfolding after
after_if (true, c, t) = refl
after_if (false, c, t) = refl

module _ (odbc : Odbc) (env : ℕ) (text : List ℕ) where
  connects-Made :
      (h : ℕ) (t : Calls)
      → Made t (
          connected_conn odbc text
            (some (record { handle = h; connected = false }), set_timeouts h ∷ alloc_dbc env ∷ t))
  connects-Made h t = subst (Made t) (sym (told ∙ after_if r)) (made (odbc.succeeds t₁ dials) refl)
    where
      t₁ : Calls
      t₁ = set_timeouts h ∷ alloc_dbc env ∷ t

      dials : OdbcCall
      dials = driver_connect h text

      r : Bool × Conn × Calls
      r = connect odbc text (record { handle = h; connected = false }) t₁

      told :
          connected_conn odbc text (some (record { handle = h; connected = false }), t₁)
          ≡ (if r.0 then (some r.1, r.2) else (none, free_conn r.1 r.2))
      told = unfold connected_conn in refl

      ran : r ≡ (
          if odbc.succeeds t₁ dials
          then (true, record { handle = h; connected = true }, dials ∷ t₁)
          else (false, record { handle = h; connected = false }, dials ∷ t₁))
      ran = unfold connect in (unfold disconnect_conn in refl)

      dialled : Made t (after (true, record { handle = h; connected = true }, dials ∷ t₁))
      dialled = unfold after in (refl, λ x. unfold count in omega arith)

      freed : IsMore none_more t (free_conn (record { handle = h; connected = false }) (dials ∷ t₁))
      freed x =
          unfold count in
          omega (arith, free_conn-counts x (record { handle = h; connected = false }) (dials ∷ t₁))

      refused : Made t (after (false, record { handle = h; connected = false }, dials ∷ t₁))
      refused = unfold after in freed

      made : (b : Bool) → odbc.succeeds t₁ dials ≡ b → Made t (after r)
      made true e = subst (λ (q : Bool × Conn × Calls). Made t (after q)) (sym (ran ∙ rw e)) dialled
      made false e =
          subst (λ (q : Bool × Conn × Calls). Made t (after q)) (sym (ran ∙ rw e)) refused

  new_conn-Made : (t : Calls) → Made t (connected_conn odbc text (new_conn odbc env t))
  new_conn-Made t = elim (Bool-cases (odbc.succeeds t (alloc_dbc env))) [
    | inl given ↦ (unfold new_conn in rw given (connects-Made (odbc.handle t (alloc_dbc env)) t))
    | inr refused ↦
        (unfold new_conn in
          rw refused (unfold connected_conn in (λ x. unfold count in omega arith)))
  ]

  abbrev pub AreConnected : List Conn → Type 0
  AreConnected [] = Unit {0}
  AreConnected (c ∷ cs) = (c.connected ≡ true) × AreConnected cs

  AreConnected-append :
      (cs : List Conn) (c : Conn)
      → AreConnected cs
      → c.connected ≡ true
      → AreConnected (cs ++ (c ∷ []))
  AreConnected-append [] c h k = (k, tt)
  AreConnected-append (d ∷ cs) c h k = (h.0, AreConnected-append cs c h.1 k)

  -- The pool asked for, or nothing that is still in use; `made` are the connections made before.
  abbrev pub IsBuilt : List Conn → ℕ → Calls → Option ConnPool × Calls → Type 0
  IsBuilt made n t (none, t') =
      (x : ℕ)
      → count (opens x) t' + count (frees x) t + uses x made
        ≡ count (opens x) t + count (frees x) t'
  IsBuilt made n t (some p, t') =
      (length p.pool ≡ length made + n)
      × AreConnected p.pool
      × (p.free ≡ first_free (length made + n))
      × ((x : ℕ)
          → count (opens x) t' + count (frees x) t + uses x made
            ≡ count (opens x) t + count (frees x) t' + uses x p.pool)

  fill_pool-IsBuilt :
      (n : ℕ) (p : ConnPool) (t : Calls)
      → AreConnected p.pool
      → p.free ≡ first_free (length p.pool)
      → IsBuilt p.pool n t (fill_pool odbc env text n p t)
  unfolding fill_pool
  fill_pool-IsBuilt zero p t h f =
      (omega arith, h, f ∙ ap first_free (omega arith), λ x. omega arith)
  fill_pool-IsBuilt (suc n) p t h f =
      goes_on (λ q t' k e. fill_pool-IsBuilt n q t' k e)
        (connected_conn odbc text (new_conn odbc env t)) (new_conn-Made t)
    where
      goes_on :
          ((q : ConnPool) (t' : Calls)
            → AreConnected q.pool
            → q.free ≡ first_free (length q.pool)
            → IsBuilt q.pool n t' (fill_pool odbc env text n q t'))
          → (r : Option Conn × Calls) → Made t r
          → IsBuilt p.pool (suc n) t (
              let (o, t') = r in
              elim o [
                | none ↦ (none, free_all p.pool t')
                | some c ↦
                    fill_pool odbc env text n
                      (record { pool = p.pool ++ (c ∷ []); free = p.free ++ (length p.pool ∷ []) })
                      t'
              ])
      goes_on later (none, t') m = λ x. omega (arith, m x, free_all-counts x p.pool t')
      goes_on later (some c, t') m =
          extended (fill_pool odbc env text n q t') (
            later q t' (AreConnected-append p.pool c h m.0) (one_more ∙ ap first_free (sym longer)))
        where
          q : ConnPool
          q = record { pool = p.pool ++ (c ∷ []); free = p.free ++ (length p.pool ∷ []) }

          longer : length q.pool ≡ suc (length p.pool)
          longer = omega (arith, length-append p.pool (c ∷ []))

          grown : (x : ℕ) → uses x q.pool ≡ uses x p.pool + one_of x c.handle
          grown x = uses-append x p.pool (c ∷ []) ∙ (unfold uses in omega arith)

          one_more : q.free ≡ first_free (suc (length p.pool))
          one_more = unfold release_conn in ap (λ xs. xs ++ (length p.pool ∷ [])) f

          extended :
              (r : Option ConnPool × Calls) → IsBuilt q.pool n t' r → IsBuilt p.pool (suc n) t r
          extended (none, t'') d = λ x. omega (arith, d x, m.1 x, grown x)
          extended (some p', t'') (d, k, e, g) = (
            omega (arith, d, longer),
            k,
            e ∙ ap first_free (omega (arith, longer)),
            λ x. omega (arith, g x, m.1 x, grown x),
          )

  -- ConnPool() of `n` connections either makes them all, connected and free, with the handles that it
  -- was given, or throws with each handle that it was given freed again as often as it was given.
  pub new_pool-IsBuilt : (n : ℕ) (t : Calls) → IsBuilt [] n t (new_pool odbc env text n t)
  new_pool-IsBuilt n t =
      unfold new_pool in fill_pool-IsBuilt n (record { pool = []; free = [] }) t tt refl

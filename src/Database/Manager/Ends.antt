-- ===== src/Database/Manager/Ends.antt =====
-- The handles of the pool from Initialize to Finalize.
use iocpserver.Prelude.{
  ℕ, ◌+◌, ◌≡◌, refl, ap, ap₂, ◌∙◌, inl, inr, Bool-cases, Option, none, some, List, [], ◌∷◌, arith,
}
use iocpserver.Prelude.Int.{ℤ}
use iocpserver.Database.{
  Calls, OdbcCall, Odbc, Conn, ConnPool, new_env, new_pool, disconnect_conn, disconnect_all,
  free_pool,
}
use iocpserver.Database.Init.{
  count, uses, one_of, none_more, opens, frees, IsMore, IsBuilt, disconnect-counts, free_all-counts,
  new_pool-IsBuilt,
}
use iocpserver.Database.Manager.{DbManager, with_pool, with_env, initialize, reset}

module _ (x : ℕ) where
  disconnect_all-counts :
      (cs : List Conn) (t : Calls)
      → (count (opens x) (disconnect_all cs t).1 ≡ count (opens x) t)
        × (count (frees x) (disconnect_all cs t).1 ≡ count (frees x) t)
        × (uses x (disconnect_all cs t).0 ≡ uses x cs)
  unfolding disconnect_all uses
  disconnect_all-counts [] t = (refl, refl, refl)
  disconnect_all-counts (c ∷ cs) t =
      let (a, b, e) = disconnect-counts x c t in
      let (a', b', same) = disconnect_all-counts cs (disconnect_conn c t).1 in
      (a' ∙ a, b' ∙ b, ap₂ ◌+◌ (ap (one_of x) e) same)

  reset-counts :
      (m : DbManager) (t : Calls)
      → (count (opens x) (reset m t) ≡ count (opens x) t)
        × (count (frees x) (reset m t) ≡ count (frees x) t + uses x m.pool.pool)
  unfolding reset free_pool
  reset-counts m t =
      let (a, b, same) = disconnect_all-counts m.pool.pool t in
      let (a', b') =
        free_all-counts x (disconnect_all m.pool.pool t).0 (disconnect_all m.pool.pool t).1 in
      (unfold count in (omega (arith, a', a), omega (arith, b', b, same)))

-- What Initialize leaves in use: the handles of the pool's connections, or none.
unfoldable pub IsReady : Calls → Option DbManager × Calls → Type 0
IsReady t (none, t') = IsMore none_more t t'
IsReady t (some m, t') = IsMore (λ x. uses x m.pool.pool) t t'

module _ (odbc : Odbc) (text : List ℕ) (n : ℕ) (health_sec : ℤ) where
  with_pool-IsReady :
      (env : ℕ) (t : Calls) (r : Option ConnPool × Calls)
      → IsBuilt odbc env text [] n t r
      → IsReady t (with_pool env health_sec n r)
  unfolding with_pool IsReady uses
  with_pool-IsReady env t (none, t') b = λ x. omega (arith, b x)
  with_pool-IsReady env t (some p, t') (len, connected, free, more) = λ x. omega (arith, more x)

  with_env-IsReady :
      (t₀ t : Calls) (o : Option ℕ)
      → ((x : ℕ)
          → (count (opens x) t ≡ count (opens x) t₀) × (count (frees x) t ≡ count (frees x) t₀))
      → IsReady t₀ (with_env odbc text n health_sec (o, t))
  unfolding with_env IsReady
  with_env-IsReady t₀ t none a = λ x. omega (arith, a x)
  with_env-IsReady t₀ t (some env) a =
      moved (with_pool env health_sec n (new_pool odbc env text n t))
        (with_pool-IsReady env t (new_pool odbc env text n t) (new_pool-IsBuilt odbc env text n t))
    where
      moved : (r : Option DbManager × Calls) → IsReady t r → IsReady t₀ r
      moved (none, t') h = unfold IsReady in (λ x. omega (arith, a x, h x))
      moved (some m, t') h = unfold IsReady in (λ x. omega (arith, a x, h x))

  -- Initialize leaves the handles of its pool's connections in use, and none when it fails.
  pub initialize-IsReady : (t : Calls) → IsReady t (initialize odbc text n health_sec t)
  unfolding initialize new_env
  initialize-IsReady t = elim (Bool-cases (odbc.succeeds t OdbcCall.alloc_env)) [
    | inl given ↦
        elim (Bool-cases (
          odbc.succeeds (OdbcCall.alloc_env ∷ t)
            (OdbcCall.set_version (odbc.handle t OdbcCall.alloc_env)))) [
              | inl set ↦
                  rw (given, set)
                    (with_env-IsReady t
                      (OdbcCall.set_version (odbc.handle t OdbcCall.alloc_env)
                        ∷ OdbcCall.alloc_env
                        ∷ t)
                      (some (odbc.handle t OdbcCall.alloc_env))
                      (λ x. unfold count in (omega arith, omega arith)))
              | inr unset ↦
                  rw (given, unset)
                    (with_env-IsReady t
                      (OdbcCall.set_version (odbc.handle t OdbcCall.alloc_env)
                        ∷ OdbcCall.alloc_env
                        ∷ t)
                      none (λ x. unfold count in (omega arith, omega arith)))
            ]
    | inr refused ↦ rw refused (
        with_env-IsReady t (OdbcCall.alloc_env ∷ t) none
          (λ x. unfold count in (omega arith, omega arith)))
  ]

-- Finalize frees what Initialize left in use.
pub reset-IsMore :
    (t t' : Calls) (m : DbManager) → IsReady t (some m, t') → IsMore none_more t (reset m t')
unfolding IsReady
reset-IsMore t t' m ready x = let (a, b) = reset-counts x m t' in omega (arith, a, b, ready x)

-- ===== src/Database.antt =====
-- DbCore/OdbcCore.h: the connections to the database and their pool. ODBC itself is the record
-- `Odbc`: whether a call succeeds, and the handle that it gives, as functions of the calls made
-- before. A constructor that throws is `none`.
pub mod Pool
pub mod Init
pub mod Stmt
pub mod Manager
mod Tests
use iocpserver.Prelude.{
  ℕ, zero, suc, ◌+◌, Bool, true, false, Option, none, some, List, [], ◌∷◌, ◌++◌, length,
  if◌then◌else◌,
}
use iocpserver.Vector.{unsnoc}

pub data OdbcCall : Type 0 where
  alloc_env : OdbcCall
  set_version : ℕ → OdbcCall
  free_env : ℕ → OdbcCall
  alloc_dbc : ℕ → OdbcCall
  set_timeouts : ℕ → OdbcCall
  driver_connect : ℕ → List ℕ → OdbcCall
  commit rollback disconnect free_dbc : ℕ → OdbcCall
  autocommit : ℕ → Bool → OdbcCall
  alloc_stmt : ℕ → OdbcCall
  set_query_timeout free_stmt execute : ℕ → OdbcCall
  prepare exec_direct : ℕ → List ℕ → OdbcCall
  bind_in_text : ℕ → ℕ → List ℕ → OdbcCall
  bind_in_binary : ℕ → ℕ → List ℕ → OdbcCall
  bind_out_big_int bind_out_int bind_col_int : ℕ → ℕ → ℕ → OdbcCall
  bind_col_text : ℕ → ℕ → ℕ → ℕ → OdbcCall
  fetch : ℕ → OdbcCall

-- The newest call stands first.
abbrev pub Calls : Type 0
Calls = List OdbcCall

pub record Odbc : Type 0 where
  pub succeeds : Calls → OdbcCall → Bool
  pub handle : Calls → OdbcCall → ℕ

pub record Conn : Type 0 where
  pub handle : ℕ
  pub connected : Bool

-- Conn::Disconnect
unfoldable pub disconnect_conn : Conn → Calls → Conn × Calls
disconnect_conn c t =
    if c.connected
    then (record c { connected = false }, disconnect c.handle ∷ rollback c.handle ∷ t)
    else (c, t)

-- ~Conn
unfoldable pub free_conn : Conn → Calls → Calls
unfolding disconnect_conn
free_conn c t = let (c', t') = disconnect_conn c t in free_dbc c'.handle ∷ t'

-- Conn::Tx: the constructor, Commit, and the destructor of a transaction that may be active.
unfoldable pub begin_tx : Conn → Calls → Bool × Calls
begin_tx c t = (true, autocommit c.handle false ∷ t)

unfoldable pub commit_tx : Conn → Calls → Bool × Calls
commit_tx c t = (false, autocommit c.handle true ∷ commit c.handle ∷ t)

unfoldable pub end_tx : Conn → Bool → Calls → Calls
end_tx c active t = if active then autocommit c.handle true ∷ rollback c.handle ∷ t else t

-- m_free of ConnPool, and its connections in order.
pub record ConnPool : Type 0 where
  pub pool : List Conn
  pub free : List ℕ

-- Acquire, once it has the lock: `none` while no connection is free.
unfoldable pub acquire : List ℕ → Option (List ℕ × ℕ)
acquire free = unsnoc free

unfoldable pub release_conn : ℕ → List ℕ → List ℕ
release_conn idx free = free ++ (idx ∷ [])

-- ~ConnPool
unfoldable pub disconnect_all : List Conn → Calls → List Conn × Calls
unfolding disconnect_conn
disconnect_all [] t = ([], t)
disconnect_all (c ∷ cs) t =
    let (c', t') = disconnect_conn c t in let (cs', t'') = disconnect_all cs t' in (c' ∷ cs', t'')

unfoldable pub free_all : List Conn → Calls → Calls
unfolding free_conn
free_all [] t = t
free_all (c ∷ cs) t = free_all cs (free_conn c t)

-- ~ConnPool, then the destructors of the members.
unfoldable pub free_pool : ConnPool → Calls → Calls
unfolding disconnect_all free_all
free_pool p t = let (cs, t') = disconnect_all p.pool t in free_all cs t'

module _ (odbc : Odbc) where
  -- Env(). A version that cannot be set throws out of the constructor: the handle is not freed.
  unfoldable pub new_env : Calls → Option ℕ × Calls
  new_env t =
      let env = odbc.handle t alloc_env in
      let t₁ = alloc_env ∷ t in
      if odbc.succeeds t alloc_env
      then if odbc.succeeds t₁ (set_version env)
        then (some env, set_version env ∷ t₁)
        else (none, set_version env ∷ t₁)
      else (none, t₁)

  unfoldable pub new_conn : ℕ → Calls → Option Conn × Calls
  new_conn env t =
      let t₁ = alloc_dbc env ∷ t in
      let h = odbc.handle t (alloc_dbc env) in
      if odbc.succeeds t (alloc_dbc env)
      then (some (record { handle = h; connected = false }), set_timeouts h ∷ t₁)
      else (none, t₁)

  -- Conn::Connect
  unfoldable pub connect : List ℕ → Conn → Calls → Bool × Conn × Calls
  unfolding disconnect_conn
  connect text c t =
      let (c₁, t₁) = disconnect_conn c t in
      let dials = driver_connect c₁.handle text in
      if odbc.succeeds t₁ dials
      then (true, record c₁ { connected = true }, dials ∷ t₁)
      else (false, c₁, dials ∷ t₁)

  -- A connection of the pool, or `none` when the constructor throws. The one that could not connect
  -- is destroyed.
  unfoldable pub connected_conn : List ℕ → Option Conn × Calls → Option Conn × Calls
  unfolding connect free_conn
  connected_conn text (none, t) = (none, t)
  connected_conn text (some c, t) =
      let (ok, c', t') = connect text c t in if ok then (some c', t') else (none, free_conn c' t')

  -- The loop of ConnPool(), over the connections made so far.
  unfoldable pub fill_pool : ℕ → List ℕ → ℕ → ConnPool → Calls → Option ConnPool × Calls
  unfolding new_conn connected_conn free_all
  fill_pool env text zero p t = (some p, t)
  fill_pool env text (suc n) p t =
      let (o, t') = connected_conn text (new_conn env t) in
      elim o [
        | none ↦ (none, free_all p.pool t')
        | some c ↦
            fill_pool env text n
              (record { pool = p.pool ++ (c ∷ []); free = p.free ++ (length p.pool ∷ []) }) t'
      ]

  unfoldable pub new_pool : ℕ → List ℕ → ℕ → Calls → Option ConnPool × Calls
  unfolding fill_pool
  new_pool env text n t = fill_pool env text n (record { pool = []; free = [] }) t

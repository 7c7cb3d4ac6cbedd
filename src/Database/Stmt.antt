-- ===== src/Database/Stmt.antt =====
-- DbCore/OdbcCore.h: a statement. Each method is one call of ODBC, and whether it succeeds. The
-- variables that are bound are numbers.
use iocpserver.Prelude.{ℕ, ◌*◌, Bool, true, false, Option, none, some, List, ◌∷◌, if◌then◌else◌}
use iocpserver.Database.{
  OdbcCall, alloc_stmt, set_query_timeout, free_stmt, execute, prepare, exec_direct, bind_in_text,
  bind_in_binary, bind_out_big_int, bind_out_int, bind_col_int, bind_col_text, fetch, Calls, Odbc,
  Conn,
}

unfoldable pub free_statement : ℕ → Calls → Calls
free_statement st t = free_stmt st ∷ t

module _ (odbc : Odbc) where
  unfoldable pub call_odbc : OdbcCall → Calls → Bool × Calls
  call_odbc c t = (odbc.succeeds t c, c ∷ t)

  -- Stmt(); `none` is its exception.
  unfoldable pub new_stmt : Conn → Calls → Option ℕ × Calls
  new_stmt c t =
      let st = odbc.handle t (alloc_stmt c.handle) in
      if odbc.succeeds t (alloc_stmt c.handle)
      then (some st, set_query_timeout st ∷ alloc_stmt c.handle ∷ t)
      else (none, alloc_stmt c.handle ∷ t)

  unfoldable pub prepare_call : ℕ → List ℕ → Calls → Bool × Calls
  unfolding call_odbc
  prepare_call st text = call_odbc (prepare st text)

  unfoldable pub exec : ℕ → Calls → Bool × Calls
  unfolding call_odbc
  exec st = call_odbc (execute st)

  unfoldable pub exec_text : ℕ → List ℕ → Calls → Bool × Calls
  unfolding call_odbc
  exec_text st text = call_odbc (exec_direct st text)

  unfoldable pub bind_in_w_char : ℕ → ℕ → List ℕ → Calls → Bool × Calls
  unfolding call_odbc
  bind_in_w_char st idx text = call_odbc (bind_in_text st idx text)

  unfoldable pub bind_in_bytes : ℕ → ℕ → List ℕ → Calls → Bool × Calls
  unfolding call_odbc
  bind_in_bytes st idx bytes = call_odbc (bind_in_binary st idx bytes)

  unfoldable pub bind_out_int64 : ℕ → ℕ → ℕ → Calls → Bool × Calls
  unfolding call_odbc
  bind_out_int64 st idx out = call_odbc (bind_out_big_int st idx out)

  unfoldable pub bind_out_int32 : ℕ → ℕ → ℕ → Calls → Bool × Calls
  unfolding call_odbc
  bind_out_int32 st idx out = call_odbc (bind_out_int st idx out)

  unfoldable pub bind_col_int32 : ℕ → ℕ → ℕ → Calls → Bool × Calls
  unfolding call_odbc
  bind_col_int32 st col out = call_odbc (bind_col_int st col out)

  -- The buffer's size in bytes, of two each.
  unfoldable pub bind_col_w_char : ℕ → ℕ → ℕ → ℕ → Calls → Bool × Calls
  unfolding call_odbc
  bind_col_w_char st col buf chars = call_odbc (bind_col_text st col buf (chars * 2))

  unfoldable pub fetch_row : ℕ → Calls → Bool × Calls
  unfolding call_odbc
  fetch_row st = call_odbc (fetch st)

  -- The next call, if those before succeeded.
  unfoldable pub and_then : (Calls → Bool × Calls) → Bool × Calls → Bool × Calls
  and_then next (true, t) = next t
  and_then next (false, t) = (false, t)

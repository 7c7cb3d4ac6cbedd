-- ===== src/Database/Manager/Answers.antt =====
-- GameServer/DBManager.cpp: Call_CheckToken as the list of the ODBC calls that it makes. The calls
-- come in order until one fails, and the statement is freed in any case.
use iocpserver.Prelude.{
  ℕ, ◌+◌, ◌≡◌, refl, ◌∙◌, inl, inr, Bool-cases, Bool, true, false, Option, none, some, List, [],
  ◌∷◌, ◌++◌, arith,
}
use iocpserver.Database.{
  OdbcCall, alloc_stmt, set_query_timeout, free_stmt, prepare, bind_in_text, bind_out_big_int,
  execute, Calls, Odbc, Conn,
}
use iocpserver.Database.Init.{count, one_of}
use iocpserver.Database.Stmt.{
  call_odbc, new_stmt, free_statement, prepare_call, bind_in_w_char, bind_out_int64, exec, and_then,
}
use iocpserver.Database.Manager.{call_check_token, check_with}

-- The times that a statement handle was given, told by its timeout, and that it was freed again.
abbrev made : ℕ → OdbcCall → ℕ
made x (set_query_timeout st) = one_of x st
made x c = 0

abbrev freed : ℕ → OdbcCall → ℕ
freed x (free_stmt st) = one_of x st
freed x c = 0

-- Each statement handle is in use after the second trace as often as after the first.
abbrev pub IsBalanced : Calls → Calls → Type 0
IsBalanced t t' =
    (x : ℕ) → count (made x) t' + count (freed x) t ≡ count (made x) t + count (freed x) t'

module _ (odbc : Odbc) where
  -- The calls in order, until one fails, from the first trace to the second; true if none fails.
  pub data Ran : List OdbcCall → Calls → Bool → Calls → Type 0 where
    ran_all : {t : Calls} → Ran [] t true t
    goes_on :
        {c : OdbcCall} {cs : List OdbcCall} {t t' : Calls} {ok : Bool}
        → odbc.succeeds t c ≡ true
        → Ran cs (c ∷ t) ok t'
        → Ran (c ∷ cs) t ok t'
    fails :
        {c : OdbcCall} {cs : List OdbcCall} {t : Calls}
        → odbc.succeeds t c ≡ false
        → Ran (c ∷ cs) t false (c ∷ t)

  Ran-one : (c : OdbcCall) (t : Calls) → Ran (c ∷ []) t (odbc.succeeds t c) (c ∷ t)
  Ran-one c t = by (odbc.succeeds t c) refl
    where
      by : (b : Bool) → odbc.succeeds t c ≡ b → Ran (c ∷ []) t b (c ∷ t)
      by true e = goes_on e ran_all
      by false e = fails e

  -- One more call behind the calls so far.
  Ran-then :
      (c : OdbcCall) {cs : List OdbcCall} {t t' : Calls} {ok : Bool}
      → Ran cs t ok t'
      → let r = and_then odbc (call_odbc odbc c) (ok, t') in Ran (cs ++ (c ∷ [])) t r.0 r.1
  unfolding and_then call_odbc
  Ran-then c (ran_all {t}) = Ran-one c t
  Ran-then c (goes_on e r) = goes_on e (Ran-then c r)
  Ran-then c (fails e) = fails e

  -- Calls that neither make a statement nor free one.
  abbrev ArePlain : ℕ → List OdbcCall → Type 0
  ArePlain x [] = Unit {0}
  ArePlain x (c ∷ cs) = (made x c ≡ 0) × (freed x c ≡ 0) × ArePlain x cs

  Ran-plain :
      (x : ℕ) {cs : List OdbcCall} {t t' : Calls} {ok : Bool}
      → Ran cs t ok t'
      → ArePlain x cs
      → (count (made x) t' ≡ count (made x) t) × (count (freed x) t' ≡ count (freed x) t)
  Ran-plain x ran_all h = (refl, refl)
  Ran-plain x (goes_on e r) (a, b, h) =
      let (m, f) = Ran-plain x r h in
      (m ∙ (unfold count in omega (arith, a)), f ∙ (unfold count in omega (arith, b)))
  Ran-plain x (fails e) (a, b, h) =
      (unfold count in omega (arith, a), unfold count in omega (arith, b))

  module _ (call_text id pw : List ℕ) (out : ℕ) where
    -- The calls on the statement.
    abbrev pub checks : ℕ → List OdbcCall
    checks st =
        prepare st call_text
        ∷ bind_in_text st 1 id
        ∷ bind_in_text st 2 pw
        ∷ bind_out_big_int st 3 out
        ∷ execute st
        ∷ []

    -- The statement handle that is given on the connection.
    abbrev pub stmt_of : ℕ → Calls → ℕ
    stmt_of h t = odbc.handle t (alloc_stmt h)

    -- What comes of the check, and the trace that it leaves: there is no statement, or the calls on
    -- it ran and it was freed.
    pub data Checked (h : ℕ) (t : Calls) : Option Bool × Calls → Type 0 where
      no_statement : odbc.succeeds t (alloc_stmt h) ≡ false → Checked h t (none, alloc_stmt h ∷ t)
      checked :
          (ok : Bool) (t' : Calls)
          → odbc.succeeds t (alloc_stmt h) ≡ true
          → Ran (checks (stmt_of h t)) (set_query_timeout (stmt_of h t) ∷ alloc_stmt h ∷ t) ok t'
          → Checked h t (some ok, free_stmt (stmt_of h t) ∷ t')

    checks-Ran :
        (st : ℕ) (t : Calls)
        → let r = and_then odbc (exec odbc st) (
            and_then odbc (bind_out_int64 odbc st 3 out) (
              and_then odbc (bind_in_w_char odbc st 2 pw) (
                and_then odbc (bind_in_w_char odbc st 1 id) (prepare_call odbc st call_text t)))) in
          Ran (checks st) t r.0 r.1
    unfolding exec bind_out_int64 bind_in_w_char prepare_call call_odbc
    checks-Ran st t = Ran-then (execute st) (
        Ran-then (bind_out_big_int st 3 out) (
          Ran-then (bind_in_text st 2 pw)
            (Ran-then (bind_in_text st 1 id) (Ran-one (prepare st call_text) t))))

    pub call_check_token-Checked :
        (c : Conn) (t : Calls)
        → Checked c.handle t (call_check_token odbc call_text [] c id pw out t)
    unfolding call_check_token new_stmt
    call_check_token-Checked c t = elim (Bool-cases (odbc.succeeds t (alloc_stmt c.handle))) [
      | inl given ↦
          let st = odbc.handle t (alloc_stmt c.handle) in
          rw given (
            unfold check_with in
            unfold free_statement in
            checked _ _ given (checks-Ran st (set_query_timeout st ∷ alloc_stmt c.handle ∷ t)))
      | inr refused ↦ rw refused (unfold check_with in no_statement refused)
    ]

    pub Checked-IsBalanced :
        {h : ℕ} {t : Calls} {r : Option Bool × Calls} → Checked h t r → IsBalanced t r.1
    Checked-IsBalanced (no_statement e) x = unfold count in omega arith
    Checked-IsBalanced (checked ok t' e r) x =
        let (m, f) =
          Ran-plain x r
            ((refl, refl, (refl, refl, (refl, refl, (refl, refl, (refl, refl, tt)))))) in
        unfold count in omega (arith, m, f)

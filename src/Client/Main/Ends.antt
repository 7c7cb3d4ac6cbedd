-- ===== src/Client/Main/Ends.antt =====
-- How TestClient's `main` ends.
use iocpserver.Prelude.{
  ℕ, zero, suc, ◌+◌, ◌<◌, ◌≡◌, refl, sym, subst, inl, inr, true, false, Option, none, some, List,
  [], ◌∷◌, ◌==◌, if◌then◌else◌, Bool-cases, arith,
}
use iocpserver.Prelude.Int.{ℤ}
use iocpserver.Client.Thread.{Client, waits}
use iocpserver.Client.Main.{
  ClientCall, wsa_startup, wsa_cleanup, opened, closesocket, set_no_delay, connect, shut_both,
  Surroundings, ClientEnd, returns, first_client, ask_login, wait_login, finish, with_connection,
  on_socket, client_main,
}

abbrev opens : ℕ → ClientCall → ℕ
opens p (opened s) = if s == p then 1 else 0
opens p c = 0

abbrev closes : ℕ → ClientCall → ℕ
closes p (closesocket s) = if s == p then 1 else 0
closes p c = 0

abbrev starts : ClientCall → ℕ
starts (wsa_startup true) = 1
starts c = 0

abbrev cleanups : ClientCall → ℕ
cleanups wsa_cleanup = 1
cleanups c = 0

abbrev number : (ClientCall → ℕ) → List ClientCall → ℕ
number f [] = 0
number f (c ∷ t) = f c + number f t

-- Every socket is closed as often as it was opened, and Winsock cleaned up as often as started.
pub data IsClosed : ClientEnd → Type 0 where
  closed :
      (r : ℤ) (t : List ClientCall) (c : Client)
      → ((p : ℕ) → number (opens p) t ≡ number (closes p) t)
      → number starts t ≡ number cleanups t
      → IsClosed (returns r t c)

abbrev pub dialled : ℕ → List ClientCall
dialled sock = connect sock 14002 ∷ set_no_delay sock ∷ opened sock ∷ wsa_startup true ∷ []

module _ (s : Surroundings) where
  -- The state at the main thread's look `n` of those that begin with look `k`.
  abbrev pub seen : ℕ → ℕ → Client → Client
  seen zero k c = c
  seen (suc n) k c = seen n (k + 1) (s.during k c)

  wait_login_ends :
      (n looks k : ℕ) (c : Client)
      → n < looks
      → waits (seen n k c) ≡ false
      → (c' : Client) × (wait_login s looks k c ≡ some c')
  unfolding wait_login
  wait_login_ends n zero k c h e = absurd (omega arith)
  wait_login_ends zero (suc looks) k c h e = (c, rw e refl)
  wait_login_ends (suc n) (suc looks) k c h e = elim (Bool-cases (waits c)) [
    | inl on ↦ rw on (wait_login_ends n looks (k + 1) (s.during k c) (omega arith) e)
    | inr off ↦ (c, rw off refl)
  ]

  -- When at some look within the number allowed the client is logged in or no longer running, `main`
  -- returns, with its socket closed if one was opened and Winsock cleaned up if it was started.
  pub client_main-IsClosed :
      (n looks : ℕ)
      → n < looks
      → waits (seen n 1 (ask_login s s.id_line first_client)) ≡ false
      → IsClosed (client_main s looks)
  unfolding client_main
  client_main-IsClosed n looks h e = elim (Bool-cases s.started) [
    | inl up ↦ rw up (by_socket s.new_socket)
    | inr down ↦ rw down (closed _ (wsa_startup false ∷ []) _ (λ p. refl) refl)
  ]
    where
      by_socket : (o : Option ℕ) → IsClosed (on_socket s looks o (wsa_startup true ∷ []))
      by_socket none =
          unfold on_socket in closed _ (wsa_cleanup ∷ wsa_startup true ∷ []) _ (λ p. refl) refl
      by_socket (some sock) =
          unfold on_socket in
          (elim (Bool-cases s.connected) [
            | inl up ↦ rw up (
                let (c, found) =
                  wait_login_ends n looks 1 (ask_login s s.id_line first_client) h e in
                unfold with_connection in
                subst (λ o. IsClosed (finish s looks sock (dialled sock) o)) (sym found)
                  (unfold finish in
                    closed _ (wsa_cleanup ∷ closesocket sock ∷ shut_both sock ∷ dialled sock) _
                      (λ p. omega arith) refl))
            | inr down ↦
                rw down (
                  closed _ (wsa_cleanup ∷ closesocket sock ∷ dialled sock) _ (λ p. omega arith)
                    refl)
          ])

-- ===== src/Game/Answer.antt =====
-- A login from the client's packet to the client's state: GamePacketHandler::Handle_Login's job on
-- the game thread, and the receive thread of TestClient.
use iocpserver.Prelude.{
  ℕ, ◌-◌, ◌^◌, ◌<◌, ◌≡◌, refl, sym, ap, ap₂, ◌∙◌, Bool, true, false, Option, some, List, [], ◌∷◌,
  ◌++◌, length, take, slice, replicate, ◌==◌, if◌then◌else◌, ◌>>=◌, arith, append-nil, take_all,
  take-append_eq, drop-append_ge,
}
use iocpserver.Prelude.Int.{ℤ, to_size}
use iocpserver.SessionManager.{find_by_token}
use iocpserver.World.{World, Job, DisconnectCb, OsCall, Os, update_self}
use iocpserver.Session.{send_packet}
use iocpserver.Session.Sending.{send_packet_idle}
use iocpserver.Packet.Header.{header}
use iocpserver.Packet.Structs.{field, length-field, le_bytes, cp_login, sp_login}
use iocpserver.Game.{login, enter}
use iocpserver.Game.Pool.{IsPool, get_empty_pc-Taken}
use iocpserver.Game.Handlers.{answer_login, run_job}
use iocpserver.Client.Packets.{AreFull, joined}
use iocpserver.Client.Thread.{Client, receive_round}
use iocpserver.Client.Login.{IsText, shown, login_received}

-- A field that is copied into one of its length is the same.
field-field : (n : ℕ) (bytes : List ℕ) → field n (field n bytes) ≡ field n bytes
field-field n bytes = whole (field n bytes) (length-field n bytes)
  where
    whole : (xs : List ℕ) → length xs ≡ n → field n xs ≡ xs
    whole xs e =
        unfold field in
        ap₂ ◌++◌ (take_all n xs (omega (arith, e))) (ap (λ k. replicate k 0) none_left)
        ∙ append-nil xs
      where
        none_left : n - length xs ≡ 0
        none_left = omega (arith, e)

-- The server copies both texts from the client's packet.
id_of : (id pw : List ℕ) → slice (cp_login id pw) 4 300 ≡ field 300 id
unfolding cp_login header slice
id_of id pw = take-append_eq 300 (field 300 id) (field 300 pw) (length-field 300 id)

pw_of : (id pw : List ℕ) → slice (cp_login id pw) 304 300 ≡ field 300 pw
unfolding cp_login header slice
pw_of id pw =
    ap (take 300)
      (drop-append_ge 300 0 (field 300 id) (field 300 pw) (omega (arith, length-field 300 id)))
    ∙ take_all 300 (field 300 pw) (omega (arith, length-field 300 pw))

answer_of :
    (result unique : ℕ) (id pw : List ℕ)
    → sp_login result unique (slice (cp_login id pw) 4 300) (slice (cp_login id pw) 304 300)
      ≡ sp_login result unique id pw
unfolding sp_login
answer_of result unique id pw =
    ap₂ (λ a b. header 616 6 ++ (le_bytes 4 result ++ (le_bytes 8 unique ++ (a ++ b))))
      (ap (field 300) (id_of id pw) ∙ field-field 300 id)
      (ap (field 300) (pw_of id pw) ∙ field-field 300 pw)

-- A login leaves what the session is sending, and makes no call.
login-sends :
    (w : World) (p : ℕ) (unique : ℤ) (name : List ℕ)
    → IsPool w.game
    → (w' : World) × (login w p unique name ≡ some w')
      × (w'.session p ≡ record (w.session p) { on_disconnect = some DisconnectCb.post_logout })
      × (w'.calls ≡ w.calls)
unfolding login
login-sends w p unique name h =
    let (u, g, e, t) = get_empty_pc-Taken w.game h in
    (_, ap (enter w p unique name) e ∙ (unfold enter in refl), update_self w.session p _, refl)

-- The result that the server answers.
abbrev pub result_of : ℤ → ℕ
result_of unique = if to_size unique == 0 then 2 ^ 32 - 1 else 0

module _ (os : Os) (w : World) (p : ℕ) (unique : ℤ) (id pw : List ℕ) where
  -- The job sends its answer.
  answers :
      IsPool w.game
      → (w.session p).is_sending ≡ false
      → (w.session p).send_queue ≡ []
      → os.send_posted w.calls ≡ true
      → (last : World) × (answer_login os w unique (some (cp_login id pw)) (some p) ≡ some last)
        × (last.calls
            ≡ OsCall.wsa_send p
                (w.session p).accept_socket
                (sp_login (result_of unique) (to_size unique) id pw)
              ∷ w.calls)
  unfolding answer_login
  answers h idle none_queued posted =
      let (w₁, e, s, c) = login-sends w p unique (slice (cp_login id pw) 4 300) h in
      (
        send_packet os w₁ p reply,
        ap (λ o. o >>= send_reply) e,
        ap (λ (x : World). x.calls)
              (send_packet_idle os w₁ p reply (ap (λ x. x.is_sending) s ∙ idle)
                (ap (λ x. x.send_queue) s ∙ none_queued) (ap os.send_posted c ∙ posted))
            ∙ ap₂ (λ k cs. OsCall.wsa_send p k reply ∷ cs) (ap (λ x. x.accept_socket) s) c
            ∙ ap (λ bytes. OsCall.wsa_send p (w.session p).accept_socket bytes ∷ w.calls)
                (answer_of (result_of unique) (to_size unique) id pw),
      )
    where
      reply : List ℕ
      reply =
          sp_login (result_of unique) (to_size unique) (slice (cp_login id pw) 4 300)
            (slice (cp_login id pw) 304 300)

      send_reply : World → Option World
      send_reply v = some (send_packet os v p reply)

  result_small : (b : Bool) → (if b then 2 ^ 32 - 1 else 0) < 2 ^ 32
  result_small true = omega arith
  result_small false = omega arith

  -- The job of a client's login packet, its texts of less than 300 bytes, when it runs for a session
  -- that is found under its id, is not sending and whose send is posted, with every player object
  -- free or in use once, and while the memory that the packet was in still holds it: the game
  -- thread answers with one WSASend, and a client that receives these bytes, cut into pieces in any
  -- way, reads them whole; it is logged in under the number and its own texts unless the number is
  -- 0.
  pub answer_received :
      (stale : List ℕ → Option (List ℕ)) (sid : ℕ)
      → find_by_token w sid ≡ some p
      → stale (cp_login id pw) ≡ some (cp_login id pw)
      → IsPool w.game
      → (w.session p).is_sending ≡ false
      → (w.session p).send_queue ≡ []
      → os.send_posted w.calls ≡ true
      → to_size unique < 2 ^ 64
      → IsText id
      → length id < 300
      → IsText pw
      → length pw < 300
      → (last : World) × (bytes : List ℕ) × (run_job os stale
            (Job.login sid unique (cp_login id pw))
            w
          ≡ some last)
        × (last.calls ≡ OsCall.wsa_send p (w.session p).accept_socket bytes ∷ w.calls)
        × ((pieces : List (List ℕ)) (c : Client)
            → AreFull pieces
            → joined pieces ≡ bytes
            → c.running ≡ true
            → let r = shown (result_of unique) (to_size unique) id pw (result_of unique == 0) c in
              (left : List (List ℕ)) × (receive_round pieces c ≡ some (r.0, r.1, left))
              × (joined left ≡ []))
  answer_received stale sid there held h idle none_queued posted small id_text id_short pw_text
        pw_short =
      let (last, ran, sent) = answers h idle none_queued posted in
      (
        last,
        sp_login (result_of unique) (to_size unique) id pw,
        runs last ran,
        sent,
        λ pieces c full cut on.
            login_received (result_of unique) (to_size unique) id pw pieces [] c full
              (cut ∙ sym (append-nil (sp_login (result_of unique) (to_size unique) id pw))) on
              (result_small (to_size unique == 0)) small id_text id_short pw_text pw_short,
      )
    where
      runs :
          (last : World)
          → answer_login os w unique (some (cp_login id pw)) (some p) ≡ some last
          → run_job os stale (Job.login sid unique (cp_login id pw)) w ≡ some last
      runs last ran = unfold run_job in ap₂ (answer_login os w unique) held there ∙ ran

-- ===== src/Servers/Logins.antt =====
-- Login packets, from the receives of the game server to the queue of the database's workers.
use iocpserver.Prelude.{
  ℕ, ◌+◌, ◌≤◌, ◌<◌, ◌≡◌, refl, sym, ap, ap₂, subst, ◌∙◌, inl, inr, Bool-cases, some, List, [], ◌∷◌,
  ◌++◌, length, map, arith, append_assoc, append-nil, ◌==◌, le→ltb,
}
use mathlib.Core.List.{map-append}
use mathlib.Core.Option.{some-injective}
use iocpserver.World.{World, Session, Task, Os, update_self, invalid_socket}
use iocpserver.RingBuffer.{RingBuffer}
use iocpserver.RingBuffer.Contents.{contents}
use iocpserver.Packet.{cm_login, size_cp_login}
use iocpserver.Packet.Header.{header_round_trip}
use iocpserver.Packet.Structs.{field, cp_login, IsSent, structs-IsSent}
use iocpserver.Dispatcher.{Handlers, find, register, dispatch}
use iocpserver.Dispatcher.Laws.{dispatch_found}
use iocpserver.Session.{recv}
use iocpserver.Receive.{set_ring}
use iocpserver.Receive.Frames.{waiting, Parsed, parse, frames_of}
use iocpserver.Receive.Append.{IsSettled}
use iocpserver.Receive.Verdicts.{ring_of, Keep, IsStraight, Delivers}
use iocpserver.Receive.Packets.{ArePackets, laid, frames_of-laid}
use iocpserver.Receive.Pieces.{Served, received_in_pieces}
use iocpserver.Client.Packets.{AreFull, joined}
use iocpserver.Game.Handlers.{handle_login, push_task}
use iocpserver.Servers.{
  Environment, Process, init_game_handlers, start_game, open_ports, run_workers,
}

-- The login packets of a list of ids and passwords.
abbrev pub logins : List (List ℕ × List ℕ) → List (List ℕ)
logins [] = []
logins ((id, pw) ∷ ls) = cp_login id pw ∷ logins ls

cp_login-IsSent : (id pw : List ℕ) → IsSent cm_login (cp_login id pw)
cp_login-IsSent id pw = (structs-IsSent [] id pw 0 0).2

length-cp_login : (id pw : List ℕ) → length (cp_login id pw) ≡ size_cp_login
unfolding cp_login
length-cp_login id pw =
    let (size, _, _, _) = cp_login-IsSent id pw in
    sym (unfold cp_login in size)
    ∙ (header_round_trip size_cp_login cm_login (field 300 id ++ field 300 pw) (omega arith)
        (omega arith)).0

logins-ArePackets : (ls : List (List ℕ × List ℕ)) → ArePackets (logins ls)
logins-ArePackets [] = tt
logins-ArePackets ((id, pw) ∷ ls) =
    let (size, _, short, long) = cp_login-IsSent id pw in
    (record { states = size; not_short = short; not_long = long }, logins-ArePackets ls)

abbrev AreLogins : List (List ℕ) → Type 0
AreLogins [] = Unit {0}
AreLogins (f ∷ fs) = ((id : List ℕ) × (pw : List ℕ) × (f ≡ cp_login id pw)) × AreLogins fs

logins-AreLogins : (ls : List (List ℕ × List ℕ)) → AreLogins (logins ls)
logins-AreLogins [] = tt
logins-AreLogins ((id, pw) ∷ ls) = ((id, pw, refl), logins-AreLogins ls)

AreLogins-append : (fs gs : List (List ℕ)) → AreLogins (fs ++ gs) → AreLogins fs × AreLogins gs
AreLogins-append [] gs h = (tt, h)
AreLogins-append (f ∷ fs) gs h = let (a, b) = AreLogins-append fs gs h.1 in ((h.0, a), b)

-- A login for the session of number `sid`.
abbrev pub checks : ℕ → List (List ℕ) → List Task
checks sid fs = map (Task.check_account sid) fs

module _ (env : Environment) (p : ℕ) where
  abbrev hs : Handlers World
  hs = init_game_handlers env []

  finds_login : find cm_login hs ≡ some (handle_login env.os)
  unfolding init_game_handlers register find
  finds_login = refl

  dispatch-login :
      (w : World) (id pw : List ℕ)
      → dispatch hs w p (cp_login id pw) (length (cp_login id pw))
        ≡ some (push_task (Task.check_account (w.session p).session_id (cp_login id pw)) w)
  dispatch-login w id pw =
      let (_, type, short, _) = cp_login-IsSent id pw in
      dispatch_found hs w p (cp_login id pw) (length (cp_login id pw)) (handle_login env.os) short
        (ap (λ i. find i hs) type ∙ finds_login)
      ∙ (unfold handle_login in
          rw
            (le→ltb (length (cp_login id pw)) size_cp_login (omega (arith, length-cp_login id pw))))

  Keep-logins : (ls : List (List ℕ × List ℕ)) → Keep hs p (logins ls)
  unfolding push_task
  Keep-logins [] = tt
  Keep-logins ((id, pw) ∷ ls) = ((λ w. (_, dispatch-login w id pw, refl)), Keep-logins ls)

  same_number :
      (w : World) (r : RingBuffer)
      → ((set_ring w p r).session p).session_id ≡ (w.session p).session_id
  same_number w r =
      ap (λ (s : Session). s.session_id)
        (update_self w.session p (record (w.session p) { recv_buffer = r }))

  -- One frame that is a login.
  one_check :
      (f : List ℕ) (w w₁ : World) (r : RingBuffer)
      → (id : List ℕ) × (pw : List ℕ) × (f ≡ cp_login id pw)
      → dispatch hs (set_ring w p r) p f (length f) ≡ some w₁
      → ((w₁.session p).session_id ≡ (w.session p).session_id)
        × (w₁.tasks ≡ w.tasks ++ (Task.check_account (w.session p).session_id f ∷ []))
  unfolding push_task
  one_check f w w₁ r (id, pw, is) ran = (
    ap (λ (x : World). (x.session p).session_id) pushed ∙ kept,
    ap (λ (x : World). x.tasks) pushed
        ∙ ap₂ (λ sid g. w.tasks ++ (Task.check_account sid g ∷ [])) kept (sym is),
  )
    where
      kept : ((set_ring w p r).session p).session_id ≡ (w.session p).session_id
      kept = same_number w r

      pushed :
          w₁
          ≡ push_task
              (Task.check_account ((set_ring w p r).session p).session_id (cp_login id pw))
              (set_ring w p r)
      pushed = some-injective _ _ (
          sym (subst (λ g. dispatch hs (set_ring w p r) p g (length g) ≡ some w₁) is ran)
          ∙ dispatch-login (set_ring w p r) id pw)

  -- What is queued behind what was, for a session whose number stays.
  abbrev Queues : World → List (List ℕ) → World → Type 0
  Queues w fs last =
      ((last.session p).session_id ≡ (w.session p).session_id)
      × (last.tasks ≡ w.tasks ++ checks (w.session p).session_id fs)

  queued_on :
      (w mid last : World) (fs gs : List (List ℕ))
      → Queues w fs mid
      → Queues mid gs last
      → Queues w (fs ++ gs) last
  queued_on w mid last fs gs (a, b) (c, d) = (
    c ∙ a,
    d
        ∙ ap₂ (λ ts sid. ts ++ checks sid gs) b a
        ∙ append_assoc w.tasks (checks sid fs) (checks sid gs)
        ∙ ap (λ ts. w.tasks ++ ts) (sym (map-append (Task.check_account sid) fs gs)),
  )
    where
      sid : ℕ
      sid = (w.session p).session_id

  delivered-Queues :
      (fs : List (List ℕ)) (w last : World)
      → AreLogins fs
      → Delivers hs p w fs last
      → Queues w fs last
  delivered-Queues [] w last h d = subst (Queues w []) (sym d) (refl, sym (append-nil w.tasks))
  delivered-Queues (f ∷ fs) w last (is, h) (w₁, ran, d) =
      queued_on w w₁ last (f ∷ []) fs (one_check f w w₁ _ is ran) (delivered-Queues fs w₁ last h d)

  recv-Queues : (os : Os) (w : World) → Queues w [] (recv os w p).1
  unfolding recv
  recv-Queues os w = elim (Bool-cases ((w.session p).accept_socket == invalid_socket)) [
    | inl closed ↦ rw closed (refl, sym (append-nil w.tasks))
    | inr posted ↦ rw posted (refl, sym (append-nil w.tasks))
  ]

  all_queued :
      (os : Os) (fuel : ℕ) (pieces : List (List ℕ)) (w : World) (fs : List (List ℕ)) (last : World)
      → AreLogins fs
      → Served os hs fuel p pieces w fs last
      → Queues w fs last
  all_queued os fuel [] w fs last h (nothing, same) =
      subst (λ gs. Queues w gs last) (sym nothing)
        (subst (Queues w []) (sym same) (refl, sym (append-nil w.tasks)))
  all_queued os fuel (piece ∷ pieces) w fs last h (r, now, later, mid, split, d, _, rest) =
      let (a, b) = AreLogins-append now later (subst AreLogins split h) in
      let w₁ = set_ring w p r in
      subst (λ gs. Queues w gs last) (sym split)
        (queued_on w (recv os mid p).1 last now later
          (subst (λ gs. Queues w gs (recv os mid p).1) (append-nil now)
            (queued_on w mid (recv os mid p).1 now []
              (queued_on w w₁ mid [] now (same_number w r, sym (append-nil w.tasks))
                (delivered-Queues now w₁ mid a d))
              (recv-Queues os mid)))
          (all_queued os fuel pieces (recv os mid p).1 later last b rest))

-- Login packets that come to a session of the started game server, cut into receives in any way,
-- while its ring is straight and empty and they do not reach its end: each is a request for the
-- database's workers, once and in order, under the session's number; every receive posts the next,
-- and nothing is left in the ring. Fuel of the ring's size is enough.
pub logins_arrive :
    (env : Environment) (fuel : ℕ) (s : Process) (p : ℕ) (pieces : List (List ℕ)) (w : World)
    (ls : List (List ℕ × List ℕ))
    → s.handlers ≡ []
    → IsStraight (ring_of w p)
    → AreFull pieces
    → contents (ring_of w p) ≡ []
    → joined pieces ≡ laid (logins ls)
    → (ring_of w p).write_pos + length (joined pieces) < (ring_of w p).buffer_size
    → (ring_of w p).buffer_size ≤ fuel
    → let hs' = (start_game env s).handlers in
      (last : World) × Served env.os hs' fuel p pieces w (logins ls) last
      × (contents (ring_of last p) ≡ [])
      × (last.tasks ≡ w.tasks ++ checks (w.session p).session_id (logins ls))
unfolding start_game open_ports run_workers
logins_arrive env fuel s p pieces w ls no_handlers straight full empty cut inside enough =
    subst
      (λ hs.
        (last : World) × Served env.os (init_game_handlers env hs) fuel p pieces w (logins ls) last
        × (contents (ring_of last p) ≡ [])
        × (last.tasks ≡ w.tasks ++ checks (w.session p).session_id (logins ls)))
      (sym no_handlers) served
  where
    parsed :
        frames_of (contents (ring_of w p) ++ joined pieces)
        ≡ record { frames = logins ls; rest = []; verdict = waiting }
    parsed = ap frames_of (ap₂ ◌++◌ empty cut) ∙ frames_of-laid (logins ls) (logins-ArePackets ls)

    served :
        (last : World) × Served env.os (init_game_handlers env []) fuel p pieces w (logins ls) last
        × (contents (ring_of last p) ≡ [])
        × (last.tasks ≡ w.tasks ++ checks (w.session p).session_id (logins ls))
    served =
        let fs = λ (q : Parsed). q.frames in
        let (last, got, rest) =
          received_in_pieces env.os (init_game_handlers env []) fuel p pieces w
            (subst (Keep (init_game_handlers env []) p) (sym (ap fs parsed)) (Keep-logins env p ls))
            straight full (subst IsSettled (sym empty) (unfold frames_of parse in refl))
            (ap (λ (q : Parsed). q.verdict) parsed) inside enough in
        let got' =
          subst (λ gs. Served env.os (init_game_handlers env []) fuel p pieces w gs last)
            (ap fs parsed) got in
        (
          last,
          got',
          rest ∙ ap (λ (q : Parsed). q.rest) parsed,
          (all_queued env p env.os fuel pieces w (logins ls) last (logins-AreLogins ls) got').1,
        )

-- ===== src/Earlier/Runs.antt =====
-- Runs of sends and of completions, on both libraries.
use iocpserver.Prelude.{
  ℕ, ◌≤◌, ◌<◌, ◌≡◌, refl, sym, ap, subst, ◌∙◌, true, Option, some, List, [], ◌∷◌, length, drop,
  ◌>>=◌,
}
use iocpserver.World.{World, SendItem, OsCall, Os}
use iocpserver.Session
use iocpserver.Earlier.{Core}
use iocpserver.Earlier
use iocpserver.Earlier.Queue.{fresh, Same, send_packet-Same, completed-Same}

-- A packet that is sent, and a completion of all that was posted.
pub data Event : Type 0 where
  sends : List ℕ → Event
  completes : Event

-- What both can carry: 1 to 4096 bytes.
abbrev pub AreFit : List Event → Type 0
AreFit [] = Unit {0}
AreFit (sends bytes ∷ es) = (0 < length bytes) × (length bytes ≤ 4096) × AreFit es
AreFit (completes ∷ es) = AreFit es

module _ (os : Os) (p : ℕ) where
  -- Without a packet in the queue nothing was posted, and nothing completes.
  unfoldable pub completed : List SendItem → World → World
  completed [] w = w
  completed (item ∷ rest) w = Session.on_send_completed os w p (length (drop item.off item.buf))

  unfoldable pub completed_too : List (List ℕ) → Core → Option Core
  completed_too [] e = some e
  completed_too (front ∷ rest) e = Earlier.on_send_completed os e p (length front)

  unfoldable pub run_later : List Event → World → World
  unfolding completed
  run_later [] w = w
  run_later (sends bytes ∷ es) w = run_later es (Session.send_packet os w p bytes)
  run_later (completes ∷ es) w = run_later es (completed (w.session p).send_queue w)

  unfoldable pub run_earlier : List Event → Core → Option Core
  unfolding completed_too
  run_earlier [] e = some e
  run_earlier (sends bytes ∷ es) e = Earlier.send_packet os e p bytes >>= (λ t. run_earlier es t)
  run_earlier (completes ∷ es) e =
      completed_too (e.session p).send_queue e >>= (λ t. run_earlier es t)

module _ (os : Os) (posts : (cs : List OsCall) → os.send_posted cs ≡ true) (p : ℕ) where
  any_completed-Same :
      (w : World) (e : Core) (queue : List (List ℕ))
      → Same p w e
      → (e.session p).send_queue ≡ queue
      → (t : Core) × (completed_too os p queue e ≡ some t)
        × Same p (completed os p (fresh queue) w) t
  unfolding completed completed_too
  any_completed-Same w e [] s f = (e, refl, s)
  any_completed-Same w e (front ∷ rest) s f = completed-Same os posts p w e front rest s f

  -- While every WSASend is posted, packets of 1 to 4096 bytes and completions of all that was posted,
  -- in any order, are the same to both libraries: they make the same calls, among them the same
  -- WSASend of the same bytes, and are left with the same packets in the queue.
  pub runs_agree :
      (es : List Event) (w : World) (e : Core)
      → AreFit es
      → Same p w e
      → (t : Core) × (run_earlier os p es e ≡ some t) × Same p (run_later os p es w) t
  unfolding run_earlier run_later
  runs_agree [] w e h s = (e, refl, s)
  runs_agree (sends bytes ∷ es) w e (some_bytes, few, h) s =
      let (t, first, same) = send_packet-Same os posts p w e bytes s some_bytes few in
      let (u, others, ends) = runs_agree es (Session.send_packet os w p bytes) t h same in
      (u, ap (λ o. o >>= (λ x. run_earlier os p es x)) first ∙ others, ends)
  runs_agree (completes ∷ es) w e h s =
      let (t, first, same) = any_completed-Same w e (e.session p).send_queue s refl in
      let (u, others, ends) =
        runs_agree es (completed os p (fresh (e.session p).send_queue) w) t h same in
      (
        u,
        ap (λ o. o >>= (λ x. run_earlier os p es x)) first ∙ others,
        subst (λ q. Same p (run_later os p es (completed os p q w)) u) (sym s.queue) ends,
      )

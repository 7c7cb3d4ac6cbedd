-- ===== src/Earlier/Queue.antt =====
-- The two send queues side by side: that of ServerCore, which takes off the whole front, and that of
-- ServerCoreLibrary, which keeps what is not yet sent of it.
use iocpserver.Prelude.{
  ℕ, ◌+◌, ◌≤◌, ◌<◌, ◌≡◌, ◌≢◌, refl, sym, ap, ap₂, subst, ◌∙◌, Bool, true, false, not, some, List,
  [], ◌∷◌, ◌++◌, length, drop, if◌then◌else◌, arith, le→ltb, le→leb, ==_ne,
}
use iocpserver.World
use iocpserver.World.{World, SendItem, OsCall, Os, update_self}
use iocpserver.Session.{is_empty, acknowledge}
use iocpserver.Session
use iocpserver.Earlier.{Core}
use iocpserver.Earlier

-- Each packet with nothing of it sent.
abbrev pub fresh : List (List ℕ) → List SendItem
fresh [] = []
fresh (bytes ∷ queue) = record { buf = bytes; off = 0 } ∷ fresh queue

fresh-append : (xs ys : List (List ℕ)) → fresh (xs ++ ys) ≡ fresh xs ++ fresh ys
fresh-append [] ys = refl
fresh-append (x ∷ xs) ys = ap (◌∷◌ (record { buf = x; off = 0 })) (fresh-append xs ys)

-- Packets that are not empty and fit into a context.
abbrev pub Fit : List (List ℕ) → Type 0
Fit [] = Unit {0}
Fit (bytes ∷ queue) = (0 < length bytes) × (length bytes ≤ 4096) × Fit queue

Fit-append :
    (xs : List (List ℕ)) (bytes : List ℕ)
    → Fit xs
    → 0 < length bytes
    → length bytes ≤ 4096
    → Fit (xs ++ (bytes ∷ []))
Fit-append [] bytes h k l = (k, l, tt)
Fit-append (x ∷ xs) bytes (a, b, c) k l = (a, b, Fit-append xs bytes c k l)

-- The session of the one library and that of the other, and the calls that were made.
pub record Same (p : ℕ) (w : World) (e : Core) : Type 0 where
  pub queue : (w.session p).send_queue ≡ fresh (e.session p).send_queue
  pub sending : (w.session p).is_sending ≡ (e.session p).is_sending
  pub socket : (w.session p).accept_socket ≡ (e.session p).socket
  pub calls : w.calls ≡ e.calls
  pub fit : Fit (e.session p).send_queue

set-Same :
    (p : ℕ) (w : World) (e : Core) (ns : World.Session) (es : Earlier.Session)
    → ns.send_queue ≡ fresh es.send_queue
    → ns.is_sending ≡ es.is_sending
    → ns.accept_socket ≡ es.socket
    → w.calls ≡ e.calls
    → Fit es.send_queue
    → Same p (World.set_session w p ns) (Earlier.set_session e p es)
set-Same p w e ns es q b k c f = record {
  queue = ap (λ x. x.send_queue) new ∙ q ∙ sym (ap (λ x. fresh x.send_queue) old);
  sending = ap (λ x. x.is_sending) new ∙ b ∙ sym (ap (λ x. x.is_sending) old);
  socket = ap (λ x. x.accept_socket) new ∙ k ∙ sym (ap (λ x. x.socket) old);
  calls = c;
  fit = subst (λ x. Fit x.send_queue) (sym old) f;
}
  where
    new : (World.set_session w p ns).session p ≡ ns
    new = update_self w.session p ns

    old : (Earlier.set_session e p es).session p ≡ es
    old = update_self e.session p es

module _ (os : Os) (posts : (cs : List OsCall) → os.send_posted cs ≡ true) (p : ℕ) where
  -- Posting the front of a queue, or nothing.
  post-Same :
      (w : World) (e : Core) (queue : List (List ℕ))
      → Same p w e
      → (e.session p).send_queue ≡ queue
      → (t : Core) × (Earlier.post_next os e p queue ≡ some t)
        × Same p (Session.post_front os w p (fresh queue)).1 t
  unfolding Session.post_front Earlier.post_next Earlier.send
  post-Same w e [] s f = (_, refl, set-Same p w e _ _ s.queue refl s.socket s.calls s.fit)
  post-Same w e (front ∷ rest) s f = (
    Earlier.call e (OsCall.wsa_send p (e.session p).socket front),
    rw (le→ltb 4096 (length front) (subst Fit f s.fit).1) refl,
    rw (posts w.calls) (record {
      queue = s.queue;
      sending = s.sending;
      socket = s.socket;
      calls = ap₂ (λ k cs. OsCall.wsa_send p k front ∷ cs) s.socket s.calls;
      fit = s.fit;
    }),
  )

  send-Same :
      (w : World) (e : Core) (queue : List (List ℕ))
      → Same p w e
      → (e.session p).send_queue ≡ queue
      → (t : Core) × (Earlier.post_next os e p queue ≡ some t) × Same p (Session.send os w p).1 t
  unfolding Session.send
  send-Same w e queue s f =
      let (t, posted, same) = post-Same w e queue s f in
      (
        t,
        posted,
        subst (λ q. Same p (Session.post_front os w p q).1 t) (sym (s.queue ∙ ap fresh f)) same,
      )

  -- SendPacket of both libraries.
  pub send_packet-Same :
      (w : World) (e : Core) (bytes : List ℕ)
      → Same p w e
      → 0 < length bytes
      → length bytes ≤ 4096
      → (t : Core) × (Earlier.send_packet os e p bytes ≡ some t)
        × Same p (Session.send_packet os w p bytes) t
  unfolding Session.send_packet Earlier.send_packet
  send_packet-Same w e bytes s h k =
      subst (Goes (e.session p).is_sending) (sym s.sending) (both (e.session p).is_sending)
    where
      queue : List (List ℕ)
      queue = (e.session p).send_queue ++ (bytes ∷ [])

      fits : Fit queue
      fits = Fit-append (e.session p).send_queue bytes s.fit h k

      longer : (w.session p).send_queue ++ (record { buf = bytes; off = 0 } ∷ []) ≡ fresh queue
      longer =
          ap (λ q. q ++ (record { buf = bytes; off = 0 } ∷ [])) s.queue
          ∙ sym (fresh-append (e.session p).send_queue (bytes ∷ []))

      waiting : World.Session
      waiting = record (w.session p) {
        send_queue = (w.session p).send_queue ++ (record { buf = bytes; off = 0 } ∷ []);
      }

      starting : World.Session
      starting = record waiting { is_sending = true }

      waiting_too : Earlier.Session
      waiting_too = record (e.session p) { send_queue = queue }

      starting_too : Earlier.Session
      starting_too = record (e.session p) { send_queue = queue; is_sending = true }

      Goes : Bool → Bool → Type 0
      Goes b c =
          (t : Core) × ((if b
              then some (Earlier.set_session e p waiting_too)
              else Earlier.post_next os (Earlier.set_session e p starting_too) p queue)
            ≡ some t)
          × Same p
              (if c
                then World.set_session w p waiting
                else (Session.send os (World.set_session w p starting) p).1)
              t

      both : (b : Bool) → Goes b b
      both true = (
        Earlier.set_session e p waiting_too,
        refl,
        set-Same p w e waiting waiting_too longer s.sending s.socket s.calls fits,
      )
      both false =
          send-Same (World.set_session w p starting) (Earlier.set_session e p starting_too) queue
            (set-Same p w e starting starting_too longer refl s.socket s.calls fits)
            (ap (λ (x : Earlier.Session). x.send_queue) (update_self e.session p starting_too))

  -- A completion of the whole front.
  pub completed-Same :
      (w : World) (e : Core) (front : List ℕ) (rest : List (List ℕ))
      → Same p w e
      → (e.session p).send_queue ≡ front ∷ rest
      → (t : Core) × (Earlier.on_send_completed os e p (length front) ≡ some t)
        × Same p (Session.on_send_completed os w p (length front)) t
  unfolding Session.on_send_completed Earlier.on_send_completed Earlier.post_next
  completed-Same w e front rest s f = rw (==_ne (length front) 0 (not_empty fits.0)) (
      subst (λ a. After a (drop 1 (e.session p).send_queue)) (sym acknowledged)
        (subst (After (fresh rest, not (is_empty (fresh rest)))) (sym (ap (drop 1) f))
          (by_rest rest fits.2)))
    where
      fits : Fit (front ∷ rest)
      fits = subst Fit f s.fit

      acknowledged :
          acknowledge (w.session p).send_queue (length front)
          ≡ (fresh rest, not (is_empty (fresh rest)))
      acknowledged =
          ap (λ q. acknowledge q (length front)) (s.queue ∙ ap fresh f)
          ∙ rw (le→leb (length front) (0 + length front) (omega arith)) refl

      still : List SendItem → World.Session
      still q = record (w.session p) { send_queue = q }

      done : List SendItem → World.Session
      done q = record (w.session p) { send_queue = q; is_sending = false }

      still_too : List (List ℕ) → Earlier.Session
      still_too q = record (e.session p) { send_queue = q }

      After : List SendItem × Bool → List (List ℕ) → Type 0
      After a q =
          (t : Core) × (Earlier.post_next os (Earlier.set_session e p (still_too q)) p q ≡ some t)
          × Same p
              (if a.1
                then (Session.send os (World.set_session w p (still a.0)) p).1
                else World.set_session w p (done a.0))
              t

      by_rest : (q : List (List ℕ)) → Fit q → After (fresh q, not (is_empty (fresh q))) q
      by_rest [] h = (
        Earlier.set_session emptied p ended,
        refl,
        set-Same p w emptied (done []) ended
            (sym (ap (λ (x : Earlier.Session). fresh x.send_queue) empty)) refl
            (s.socket ∙ sym (ap (λ (x : Earlier.Session). x.socket) empty)) s.calls
            (subst (λ (x : Earlier.Session). Fit x.send_queue) (sym empty) tt),
      )
        where
          emptied : Core
          emptied = Earlier.set_session e p (still_too [])

          empty : emptied.session p ≡ still_too []
          empty = update_self e.session p (still_too [])

          ended : Earlier.Session
          ended = record (emptied.session p) { is_sending = false }
      by_rest (x ∷ xs) h =
          send-Same (World.set_session w p (still (fresh (x ∷ xs))))
            (Earlier.set_session e p (still_too (x ∷ xs))) (x ∷ xs)
            (set-Same p w e (still (fresh (x ∷ xs))) (still_too (x ∷ xs)) refl s.sending s.socket
              s.calls h)
            (ap (λ (z : Earlier.Session). z.send_queue)
              (update_self e.session p (still_too (x ∷ xs))))

      not_empty : 0 < length front → length front ≢ 0
      not_empty h = omega arith

-- ===== src/IocpCore/Worker.antt =====
-- The accepts that the workers keep posted, and the end of the workers.
use iocpserver.Prelude.{
  ℕ, zero, suc, ◌+◌, ◌≤◌, ◌≡◌, ◌≢◌, refl, ap, ◌∙◌, Bool, true, false, some, List, [], ◌∷◌, ◌++◌,
  arith, replicate, drop, length, length-append, length-replicate,
}
use iocpserver.World.{World, SessionType, OsCall, Os, call}
use iocpserver.Dispatcher.{Handlers}
use iocpserver.Receive.{done}
use iocpserver.Listener.{post_accept, on_accept_completed}
use iocpserver.Listener.Accepts.{
  accepts, aimed, aimed_self, aimed_other, post_accept_lem, on_accept_completed_lem,
}
use iocpserver.IocpCore.{
  IocpContext, Dequeued, null_overlapped, completed, waits, ended, faulted, exhausted, failed,
  succeeded, handle, take_next, take_each, shut_down,
}

-- While Winsock has sockets to give and posts the accepts, the completion of an accept, failed or
-- not, is handled without undefined behaviour; then one more accept of its type is posted on its
-- listener, and no other on any other listener.
pub handle_accept_lem :
    (os : Os) (hs : Handlers World) (fuel : ℕ)
    → ((cs : List OsCall) → (socket : ℕ) × (os.new_socket cs ≡ some socket))
    → ((cs : List OsCall) → os.accept_posted cs ≡ true)
    → (w : World) (ok : Bool) (l accepted : ℕ) (type : SessionType) (n : ℕ)
    → (w' : World) × (handle os hs fuel w (completed ok l (IocpContext.accept_ctx accepted type) n)
        ≡ done w')
      × (accepts os l type w'.calls ≡ accepts os l type w.calls + 1)
      × ((other : ℕ) (kind : SessionType)
          → other ≢ l
          → accepts os other kind w'.calls ≡ accepts os other kind w.calls)
unfolding handle
handle_accept_lem os hs fuel sockets takes w ok l accepted type n =
    let (w', e, counted) = handled ok in
    (
      w',
      e,
      counted l type ∙ ap (λ k. accepts os l type w.calls + k) (aimed_self l type),
      λ other kind ne.
          counted other kind
          ∙ ap (λ k. accepts os other kind w.calls + k) (aimed_other other kind l type ne)
          ∙ omega arith,
    )
  where
    handled :
        (ok : Bool)
        → (w' : World) × (handle os hs fuel w
              (completed ok l (IocpContext.accept_ctx accepted type) n)
            ≡ done w')
          × ((k : ℕ) (t : SessionType)
              → accepts os k t w'.calls ≡ accepts os k t w.calls + aimed k t l type)
    handled true = (
      on_accept_completed os w l accepted type,
      (unfold succeeded in refl),
      λ k t. on_accept_completed_lem os k t sockets takes w l accepted type,
    )
    handled false = (
      (post_accept os (call w (OsCall.closesocket accepted)) l type).1,
      (unfold failed in refl),
      λ k t.
          post_accept_lem os k t sockets takes (call w (OsCall.closesocket accepted)) l type
          ∙ ap (λ n. n + aimed k t l type) (told k t),
    )
      where
        told :
            (k : ℕ) (t : SessionType)
            → accepts os k t (call w (OsCall.closesocket accepted)).calls ≡ accepts os k t w.calls
        told k t = unfold accepts in omega arith

-- A worker that takes a completion once the flag is cleared ends, and does not handle it.
each_ends :
    (os : Os) (hs : Handlers World) (fuel n : ℕ) (w : World) (ds : List Dequeued)
    → w.is_running ≡ false
    → n ≤ length ds
    → take_each os hs fuel n w ds ≡ ended w (drop n ds)
each_ends os hs fuel zero w ds off h = unfold take_each in refl
each_ends os hs fuel (suc n) w [] off h = absurd (omega (arith, h))
each_ends os hs fuel (suc n) w (d ∷ ds) off h =
    took ∙ each_ends os hs fuel n w ds off (omega (arith, h))
  where
    takes_one : take_next os hs fuel w (d ∷ ds) ≡ ended w ds
    takes_one = unfold take_next in rw off

    took : take_each os hs fuel (suc n) w (d ∷ ds) ≡ take_each os hs fuel n w ds
    took =
        unfold take_each in
        ap
          (λ r. elim r [
            | waits w' ↦ waits w'
            | ended w' ds' ↦ take_each os hs fuel n w' ds'
            | faulted ↦ faulted
            | exhausted ↦ exhausted
          ])
          takes_one

-- ShutDown of a running port: however many of the workers are in GetQueuedCompletionStatus and
-- whatever the port holds, each of them takes one completion and ends without handling it, so that
-- none is left waiting; a second call posts nothing.
pub shut_down_lem :
    (os : Os) (hs : Handlers World) (fuel workers blocked : ℕ) (w : World) (ds : List Dequeued)
    → w.is_running ≡ true
    → blocked ≤ workers
    → let (posted, w') = shut_down workers w in
      (take_each os hs fuel blocked w' (ds ++ posted) ≡ ended w' (drop blocked (ds ++ posted)))
      × (shut_down workers w' ≡ ([], w'))
unfolding shut_down
shut_down_lem os hs fuel workers blocked w ds on few = rw on (
  each_ends os hs fuel blocked (record w { is_running = false })
      (ds ++ replicate workers null_overlapped) refl
      (omega (
        arith,
        length-append ds (replicate workers null_overlapped),
        length-replicate workers null_overlapped,
      )),
  refl,
)

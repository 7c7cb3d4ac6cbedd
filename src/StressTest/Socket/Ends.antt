-- ===== src/StressTest/Socket/Ends.antt =====
-- Where SendAll and RecvExact end: they do, however the bytes are split.
use iocpserver.Prelude.{
  ℕ, zero, suc, ◌+◌, ◌-◌, ◌≤◌, ◌<◌, ◌≡◌, refl, sym, ap, ap₂, ◌∙◌, ◌⊎◌, inl, inr, Bool, true, false,
  Option, none, some, List, [], ◌++◌, length, take, drop, slice, ltb, Bool-cases, Option-cases,
  arith, append_assoc, append-nil, length-append, length-take, length-drop, slice_add, ltb→lt,
  take_add, drop-drop,
}
use iocpserver.StressTest.Socket.{Socket, Net, IsNet, send_more, send_all, recv_more, recv_exact}

-- From `total` on `n` bytes are sent, and all that is left if the result is true.
pub record Sent (bytes : List ℕ) (total : ℕ) (s : Socket) (r : Option (Bool × Socket))
    : Type 0 where
  pub result : Bool
  pub n : ℕ
  pub returns : r ≡ some (result, record s { sent = s.sent ++ slice bytes total n })
  pub within : total + n ≤ length bytes
  pub whole : result ≡ true → total + n ≡ length bytes

-- `k` bytes are received behind `got`: all `n`, or less and there is no result.
pub record Received (n : ℕ) (got : List ℕ) (s : Socket) (r : Option (Option (List ℕ) × Socket))
    : Type 0 where
  pub k : ℕ
  pub there : k ≤ length s.incoming
  pub returns :
      ((r ≡ some (some (got ++ take k s.incoming), record s { incoming = drop k s.incoming }))
        × (length got + k ≡ n))
      ⊎ ((r ≡ some (none, record s { incoming = drop k s.incoming })) × (length got + k < n))

module _ (net : Net) (ok : IsNet net) where
  nothing_more :
      (bytes : List ℕ) (total : ℕ) (s : Socket) (b : Bool)
      → total ≤ length bytes
      → (b ≡ true → total ≡ length bytes)
      → Sent bytes total s (some (b, s))
  unfolding slice
  nothing_more bytes total s b h whole = record {
    result = b;
    n = 0;
    returns = ap (λ xs. some (b, record s { sent = xs })) (sym (append-nil s.sent));
    within = omega arith;
    whole = λ e. omega (arith, whole e);
  }

  some_more :
      (bytes : List ℕ) (total m : ℕ) (s : Socket) (r : Option (Bool × Socket))
      → Sent bytes (total + m) (record s { sent = s.sent ++ slice bytes total m }) r
      → Sent bytes total s r
  some_more bytes total m s r t = record {
    result = t.result;
    n = m + t.n;
    returns = t.returns ∙ ap (λ xs. some (t.result, record s { sent = xs })) joined;
    within = omega (arith, t.within);
    whole = λ e. omega (arith, t.whole e);
  }
    where
      joined :
          (s.sent ++ slice bytes total m) ++ slice bytes (total + m) t.n
          ≡ s.sent ++ slice bytes total (m + t.n)
      joined =
          append_assoc s.sent (slice bytes total m) (slice bytes (total + m) t.n)
          ∙ ap (◌++◌ s.sent) (sym (slice_add bytes total m t.n (m + t.n) refl))

  send_more-ends :
      (fuel : ℕ) (bytes : List ℕ) (total : ℕ) (s : Socket)
      → length bytes < fuel + total
      → total ≤ length bytes
      → Sent bytes total s (send_more net fuel bytes total s)
  unfolding send_more
  send_more-ends zero bytes total s h k = absurd (omega arith)
  send_more-ends (suc fuel) bytes total s h k = elim (Bool-cases (ltb total (length bytes))) [
    | inr done ↦ rw done (nothing_more bytes total s true k (λ e. ground arith))
    | inl more ↦ elim (Option-cases (net.send s (length bytes - total))) [
      | inl fails ↦ rw (more, fails) (nothing_more bytes total s false k (λ e. absurd (cc e)))
      | inr (m, e) ↦
          let (some_sent, at_most) =
            ok.send_some s (length bytes - total) m
              (omega (arith, ltb→lt total (length bytes) more)) e in
          rw (more, e)
            (some_more bytes total m s
              (send_more net fuel bytes (total + m)
                (record s { sent = s.sent ++ slice bytes total m }))
              (send_more-ends fuel bytes (total + m)
                (record s { sent = s.sent ++ slice bytes total m }) (omega arith) (omega arith)))
    ]
  ]

  -- SendAll returns after at most as many calls of `send` as there are bytes. What is sent is the
  -- bytes from the first on, and all of them if it returns true.
  pub send_all-ends : (bytes : List ℕ) (s : Socket) → Sent bytes 0 s (send_all net bytes s)
  unfolding send_all
  send_all-ends bytes s = send_more-ends (suc (length bytes)) bytes 0 s (omega arith) (omega arith)

  recv_some :
      (n m : ℕ) (got : List ℕ) (s : Socket) (r : Option (Option (List ℕ) × Socket))
      → m ≤ length s.incoming
      → Received n (got ++ take m s.incoming) (record s { incoming = drop m s.incoming }) r
      → Received n got s r
  recv_some n m got s r h t = record {
    k = m + t.k;
    there = omega (arith, t.there, length-drop m s.incoming);
    returns = elim t.returns [
      | inl (e, all) ↦ inl (
        e ∙ ap₂ (λ xs ys. some (some xs, record s { incoming = ys })) joined rest,
        omega (arith, all, longer),
      )
      | inr (e, less) ↦
          inr (
            e ∙ ap (λ ys. some (none, record s { incoming = ys })) rest,
            omega (arith, less, longer),
          )
    ];
  }
    where
      joined :
          (got ++ take m s.incoming) ++ take t.k (drop m s.incoming)
          ≡ got ++ take (m + t.k) s.incoming
      joined =
          append_assoc got (take m s.incoming) (take t.k (drop m s.incoming))
          ∙ ap (◌++◌ got) (sym (take_add m t.k s.incoming))

      rest : drop t.k (drop m s.incoming) ≡ drop (m + t.k) s.incoming
      rest = drop-drop m t.k (m + t.k) s.incoming refl

      longer : length (got ++ take m s.incoming) ≡ length got + m
      longer = omega (arith, length-append got (take m s.incoming), length-take m s.incoming)

  recv_more-ends :
      (fuel n : ℕ) (got : List ℕ) (s : Socket)
      → n < fuel + length got
      → length got ≤ n
      → Received n got s (recv_more net fuel n got s)
  unfolding recv_more
  recv_more-ends zero n got s h k = absurd (omega arith)
  recv_more-ends (suc fuel) n got s h k = elim (Bool-cases (ltb (length got) n)) [
    | inr done ↦ rw done (record {
      k = 0;
      there = omega arith;
      returns = inl (ap (λ xs. some (some xs, s)) (sym (append-nil got)), ground arith);
    })
    | inl more ↦ elim (Option-cases (net.recv s (n - length got))) [
      | inl fails ↦
          rw (more, fails)
            (record {
              k = 0;
              there = omega arith;
              returns = inr (refl, omega (arith, ltb→lt (length got) n more));
            })
      | inr (m, e) ↦
          let (some_there, at_most, there) =
            ok.recv_some s (n - length got) m (omega (arith, ltb→lt (length got) n more)) e in
          rw (more, e)
            (recv_some n m got s
              (recv_more net fuel n (got ++ take m s.incoming)
                (record s { incoming = drop m s.incoming }))
              there
              (recv_more-ends fuel n (got ++ take m s.incoming)
                (record s { incoming = drop m s.incoming })
                (omega (arith, length-append got (take m s.incoming), length-take m s.incoming))
                (omega (arith, length-append got (take m s.incoming), length-take m s.incoming))))
    ]
  ]

  -- RecvExact returns after at most as many calls of `recv` as it asks for bytes, with the next
  -- bytes of the stream, or without a result when it has taken less.
  pub recv_exact-ends : (n : ℕ) (s : Socket) → Received n [] s (recv_exact net n s)
  unfolding recv_exact
  recv_exact-ends n s = recv_more-ends (suc n) n [] s (omega arith) (omega arith)

  -- The two ends of RecvExact.
  pub recv_exact-cases :
      (n : ℕ) (s : Socket)
      → ((recv_exact net n s
            ≡ some (some (take n s.incoming), record s { incoming = drop n s.incoming }))
          × (n ≤ length s.incoming))
        ⊎ ((t : Socket) × (recv_exact net n s ≡ some (none, t)) × (t.sent ≡ s.sent))
  recv_exact-cases n s = cases (recv_exact-ends n s)
    where
      cases :
          Received n [] s (recv_exact net n s)
          → ((recv_exact net n s
                ≡ some (some (take n s.incoming), record s { incoming = drop n s.incoming }))
              × (n ≤ length s.incoming))
            ⊎ ((t : Socket) × (recv_exact net n s ≡ some (none, t)) × (t.sent ≡ s.sent))
      cases r = elim r.returns [
        | inl (e, all) ↦ inl (
          e
              ∙ ap (λ k. some (some (take k s.incoming), record s { incoming = drop k s.incoming }))
                  (all_of all),
          omega (arith, all, r.there),
        )
        | inr (e, less) ↦ inr (record s { incoming = drop r.k s.incoming }, e, refl)
      ]
        where
          all_of : 0 + r.k ≡ n → r.k ≡ n
          all_of e = omega arith

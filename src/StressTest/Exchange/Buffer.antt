-- ===== src/StressTest/Exchange/Buffer.antt =====
-- The send buffer of a packet, filled or overrun.
use iocpserver.Prelude.{
  ℕ, suc, ◌+◌, ◌/◌, ◌%◌, ◌^◌, ◌≤◌, ◌<◌, ◌≡◌, refl, sym, ap, ◌∙◌, inl, inr, false, Option, none,
  some, List, ◌∷◌, ◌++◌, length, take, drop, replicate, copy_in, copy_in_lem, splice, ◌>>=◌, arith,
  append-nil, take_all, drop_all, length-replicate, length-splice, length-take, leb, Bool-cases,
  leb→le, Option-cases,
}
use mathlib.Core.Option.{some-injective}
use iocpserver.Packet.Header.{u16_bytes, header}
use iocpserver.StressTest.{packet}
use iocpserver.StressTest.Socket.{Socket, Net}
use iocpserver.StressTest.Exchange.{make_buffer, exchange}

-- The buffer of a packet whose size 16 bits hold, without and with the payload.
four_more : (n : ℕ) → 4 + n ≡ suc (suc (suc (suc n)))
four_more n = omega arith

four_zeros : (n : ℕ) → replicate {A = ℕ} (4 + n) 0 ≡ 0 ∷ 0 ∷ 0 ∷ 0 ∷ replicate n 0
four_zeros n = ap (λ k. replicate {A = ℕ} k 0) (four_more n)

stamped :
    (zs : List ℕ) (size id : ℕ)
    → (copy_in (0 ∷ 0 ∷ 0 ∷ 0 ∷ zs) 0 (u16_bytes size) 2
        >>= (λ buf. copy_in buf 2 (u16_bytes id) 2))
      ≡ some (header size id ++ zs)
unfolding splice header
stamped zs size id =
    rw (copy_in_lem (0 ∷ 0 ∷ 0 ∷ 0 ∷ zs) 0 (u16_bytes size) 2 (omega arith) (omega arith)) (
      copy_in_lem (size % 256 ∷ size / 256 % 256 ∷ 0 ∷ 0 ∷ zs) 2 (u16_bytes id) 2 (omega arith)
        (omega arith))

pub make_buffer-packet :
    (payload : List ℕ) (id : ℕ)
    → 4 + length payload < 2 ^ 16
    → make_buffer packet payload id
      ≡ some (header (4 + length payload) id ++ replicate (length payload) 0)
unfolding make_buffer
make_buffer-packet payload id h =
    ap stamp small
    ∙ rw (four_zeros (length payload))
        (stamped (replicate (length payload) 0) (4 + length payload) id)
  where
    small : (4 + length payload) % 2 ^ 16 ≡ 4 + length payload
    small = omega arith

    stamp : ℕ → Option (List ℕ)
    stamp size =
        copy_in (replicate size 0) 0 (u16_bytes size) 2 >>= (λ buf. copy_in buf 2 (u16_bytes id) 2)

pub filled :
    (payload zs : List ℕ) (size id : ℕ)
    → length zs ≡ length payload
    → copy_in (header size id ++ zs) 4 payload (length payload) ≡ some (header size id ++ payload)
unfolding splice header
filled payload zs size id e =
    copy_in_lem (header size id ++ zs) 4 payload (length payload) (omega (arith, e)) (omega arith)
    ∙ ap (λ xs. some (header size id ++ xs)) behind
  where
    behind :
        take (length payload) payload
          ++ drop (4 + length (take (length payload) payload)) (header size id ++ zs)
        ≡ payload
    behind =
        rw
          (
            take_all (length payload) payload (omega arith),
            four_more (length payload),
            drop_all (length payload) zs (omega (arith, e)),
          )
          (append-nil payload)

copy_in_past :
    (buf : List ℕ) (p : ℕ) (src : List ℕ) (n : ℕ) → length buf < p + n → copy_in buf p src n ≡ none
unfolding copy_in
copy_in_past buf p src n h = ground arith

copy_in_short :
    (buf : List ℕ) (p : ℕ) (src : List ℕ) (n : ℕ) → length src < n → copy_in buf p src n ≡ none
unfolding copy_in
copy_in_short buf p src n h = ground arith

-- A copy that is made keeps the length.
length-copy_in :
    (buf : List ℕ) (p : ℕ) (src : List ℕ) (n : ℕ) (after : List ℕ)
    → copy_in buf p src n ≡ some after
    → length after ≡ length buf
length-copy_in buf p src n after e = elim (Bool-cases (leb (p + n) (length buf))) [
  | inr past ↦ absurd (cc (sym (copy_in_past buf p src n (leb-false (p + n) (length buf) past)), e))
  | inl within ↦ elim (Bool-cases (leb n (length src))) [
    | inl there ↦
        let fits = leb→le (p + n) (length buf) within in
        let known = leb→le n (length src) there in
        ap length (some-injective _ _ (sym e ∙ copy_in_lem buf p src n fits known))
        ∙ length-splice buf p (take n src) (omega (arith, length-take n src))
    | inr short ↦ absurd (cc (sym (copy_in_short buf p src n (leb-false n (length src) short)), e))
  ]
]
  where
    leb-false : (a b : ℕ) → leb a b ≡ false → b < a
    leb-false a b h = ground arith

-- A packet that 16 bits cannot measure overruns the send buffer: the exchange writes past its end.
pub exchange_overrun :
    (net : Net) (payload : List ℕ) (id : ℕ) (s : Socket)
    → 2 ^ 16 ≤ 4 + length payload
    → (make_buffer packet payload id >>= (λ buf. exchange net packet payload buf s)) ≡ none
unfolding make_buffer exchange
exchange_overrun net payload id s h = elim (Option-cases (copy_in zeros 0 (u16_bytes size) 2)) [
  | inl fails ↦ rw fails refl
  | inr (b, e) ↦ elim (Option-cases (copy_in b 2 (u16_bytes id) 2)) [
    | inl fails ↦ rw (e, fails) refl
    | inr (c, f) ↦
        rw
          (
            e,
            f,
            copy_in_past c 4 payload (length payload) (
                omega (
                  arith,
                  length-copy_in b 2 (u16_bytes id) 2 c f,
                  length-copy_in zeros 0 (u16_bytes size) 2 b e,
                  length-replicate {A = ℕ} size 0,
                )),
          )
          refl
  ]
]
  where
    size : ℕ
    size = (4 + length payload) % 2 ^ 16

    zeros : List ℕ
    zeros = replicate size 0

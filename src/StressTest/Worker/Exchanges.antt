-- ===== src/StressTest/Worker/Exchanges.antt =====
-- Every exchange returns, whatever the peer sends.
use iocpserver.Prelude.{
  ℕ, ◌+◌, ◌-◌, ◌≤◌, ◌≡◌, refl, ap, ◌∙◌, inl, inr, Bool, true, false, Option, none, some, List,
  length, get_or, ◌>>=◌, Bool-cases, arith, copy_in, take, length-take, splice, length-splice,
  copy_in_lem, ltb,
}
use iocpserver.Packet.Structs.{value_of}
use iocpserver.Packet.Header.{u16}
use iocpserver.StressTest.{Proto, raw, len_prefixed, packet}
use iocpserver.StressTest.Socket.{Socket, Net, IsNet, recv_exact}
use iocpserver.StressTest.Socket.Ends.{send_all-ends, recv_exact-cases}
use iocpserver.StressTest.Exchange.{
  as_int, send_vector, recv_vector, recv_len_prefixed, recv_body, recv_packet, if_sent, exchange,
}

-- A computation that gives a result, and one with a property.
pub record Gives {ℓ} {A : Type ℓ} (P : A → Type 0) (r : Option A) : Type ℓ where
  pub value : A
  pub returns : r ≡ some value
  pub holds : P value

pub gives {ℓ} : {A : Type ℓ} {P : A → Type 0} (x : A) → P x → Gives P (some x)
gives x p = record { value = x; returns = refl; holds = p }

pub next_result {ℓ κ} :
    {A : Type ℓ} {B : Type κ} {P : A → Type 0} {Q : B → Type 0} {r : Option A} {f : A → Option B}
    → Gives P r
    → ((x : A) → P x → Gives Q (f x))
    → Gives Q (r >>= f)
next_result {f = f} g next =
    let h = next g.value g.holds in
    record { value = h.value; returns = ap (λ o. o >>= f) g.returns ∙ h.returns; holds = h.holds }

-- By cases on an optional result.
pub by_option {ℓ κ} :
    {A : Type ℓ} {B : Type κ} {P : B → Type 0} (o : Option A) (n : Option B) (f : A → Option B)
    → Gives P n
    → ((x : A) → Gives P (f x))
    → Gives P (elim o [ none ↦ n | some x ↦ f x ])
by_option none n f g h = g
by_option (some x) n f g h = h x

pub copy_in-Gives :
    (buf : List ℕ) (p : ℕ) (src : List ℕ) (n : ℕ)
    → p + n ≤ length buf
    → n ≤ length src
    → Gives (λ after. length after ≡ length buf) (copy_in buf p src n)
copy_in-Gives buf p src n h k = record {
  value = splice buf p (take n src);
  returns = copy_in_lem buf p src n h k;
  holds = length-splice buf p (take n src) (omega (arith, length-take n src));
}

abbrev Any {ℓ} : {A : Type ℓ} → A → Type 0
Any x = Unit {0}

module _ (net : Net) (ok : IsNet net) where
  send_vector-Gives : (bytes : List ℕ) (s : Socket) → Gives Any (send_vector net bytes s)
  unfolding send_vector
  send_vector-Gives bytes s =
      let t = send_all-ends net ok (take (as_int (length bytes)) bytes) s in
      record { value = _; returns = t.returns; holds = tt }

  recv_exact-Gives : (n : ℕ) (s : Socket) → Gives Any (recv_exact net n s)
  recv_exact-Gives n s = elim (recv_exact-cases net ok n s) [
    | inl (e, there) ↦ record { value = _; returns = e; holds = tt }
    | inr (t, e, same) ↦ record { value = _; returns = e; holds = tt }
  ]

  recv_vector-Gives : (n : ℕ) (s : Socket) → Gives Any (recv_vector net n s)
  unfolding recv_vector
  recv_vector-Gives n s = next_result (recv_exact-Gives (as_int n) s) (λ r u.
      by_option r.0 (some (false, r.1)) (λ bytes. some (true, r.1)) (gives _ tt)
        (λ bytes. gives _ tt))

  recv_len_prefixed-Gives : (s : Socket) → Gives Any (recv_len_prefixed net s)
  unfolding recv_len_prefixed
  recv_len_prefixed-Gives s = next_result (recv_exact-Gives 4 s) (λ r u.
      by_option r.0 (some (false, r.1)) (λ bytes. recv_vector net (value_of bytes) r.1) (gives _ tt)
        (λ bytes. recv_vector-Gives (value_of bytes) r.1))

  recv_body-Gives : (size : ℕ) (s : Socket) → Gives Any (recv_body net size s)
  unfolding recv_body
  recv_body-Gives size s = elim (Bool-cases (ltb size 4)) [
    | inl short ↦ rw short (gives _ tt)
    | inr long ↦ rw long (recv_vector-Gives (size - 4) s)
  ]

  recv_packet-Gives : (s : Socket) → Gives Any (recv_packet net s)
  unfolding recv_packet
  recv_packet-Gives s = next_result (recv_exact-Gives 2 s) (λ r u.
      by_option r.0 (some (false, r.1)) (after_size r.1) (gives _ tt) (λ size.
        next_result (recv_exact-Gives 2 r.1) (λ q v.
          by_option q.0 (some (false, q.1)) (after_id size q.1) (gives _ tt)
            (λ id. recv_body-Gives (u16 (get_or size 0 0) (get_or size 1 0)) q.1))))
    where
      after_id : List ℕ → Socket → List ℕ → Option (Bool × Socket)
      after_id size t id = recv_body net (u16 (get_or size 0 0) (get_or size 1 0)) t

      after_size : Socket → List ℕ → Option (Bool × Socket)
      after_size t size =
          recv_exact net 2 t
          >>= (λ q. elim q.0 [ none ↦ some (false, q.1) | some id ↦ after_id size q.1 id ])

  if_sent-Gives :
      (recv : Socket → Option (Bool × Socket))
      → ((s : Socket) → Gives Any (recv s))
      → (x : Bool × Socket) → Gives Any (if_sent net recv x)
  unfolding if_sent
  if_sent-Gives recv g (true, s) = g s
  if_sent-Gives recv g (false, s) = gives _ tt

-- The buffer of a packet has its length.
unfoldable pub IsBuffer : Proto → List ℕ → List ℕ → Type 0
IsBuffer raw payload buf = Unit {0}
IsBuffer len_prefixed payload buf = Unit {0}
IsBuffer packet payload buf = length buf ≡ 4 + length payload

module _ (net : Net) (ok : IsNet net) where
  pub exchange-Gives :
      (proto : Proto) (payload buf : List ℕ) (s : Socket)
      → IsBuffer proto payload buf
      → Gives
          (λ (x : List ℕ × (Bool × Socket)). IsBuffer proto payload x.0)
          (exchange net proto payload buf s)
  unfolding exchange IsBuffer
  exchange-Gives raw payload buf s h =
      next_result
        (next_result (send_vector-Gives net ok payload s) (λ x u.
          if_sent-Gives net ok (recv_vector net (length payload))
            (recv_vector-Gives net ok (length payload)) x))
        (λ r u. gives _ tt)
  exchange-Gives len_prefixed payload buf s h =
      next_result
        (next_result (send_vector-Gives net ok buf s)
          (λ x u. if_sent-Gives net ok (recv_len_prefixed net) (recv_len_prefixed-Gives net ok) x))
        (λ r u. gives _ tt)
  exchange-Gives packet payload buf s h =
      next_result (copy_in-Gives buf 4 payload (length payload) (omega (arith, h)) (omega arith))
        (λ filled kept.
          next_result
            (next_result (send_vector-Gives net ok filled s)
              (λ x u. if_sent-Gives net ok (recv_packet net) (recv_packet-Gives net ok) x))
            (λ r u. gives _ (kept ∙ h)))

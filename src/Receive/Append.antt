-- ===== src/Receive/Append.antt =====
-- The parser on a stream that comes in two parts: Receive/Frames on both, one behind the other.
use iocpserver.Prelude.{
  ℕ, zero, suc, ◌+◌, ◌≤◌, ◌<◌, ◌≡◌, ◌≢◌, refl, sym, ap, ap₂, subst, ◌∙◌, ◌⊎◌, inl, inr, List, [],
  ◌∷◌, ◌++◌, length, take, drop, arith, length-append, length-drop, take-append_le, drop-append_le,
  append-nil,
}
use iocpserver.RingBuffer.Valid.{order}
use iocpserver.Packet.Header.{header_size}
use iocpserver.Receive.Step.{IsSize}
use iocpserver.Receive.Packets.{header_size-append}
use iocpserver.Receive.Verdicts.{IsSize-cases}
use iocpserver.Receive.Frames.{
  Verdict, waiting, malformed, Parsed, parse, frames_of, stop, cons_frame, limit, parse_short,
  parse_bad, parse_wait, parse_frame,
}

-- The four things that the front of a stream can be.
data Front (bytes : List ℕ) : Type 0 where
  no_header : length bytes < 4 → Front bytes
  no_size : 4 ≤ length bytes → (header_size bytes < 4) ⊎ (limit < header_size bytes) → Front bytes
  part :
      4 ≤ length bytes → IsSize (header_size bytes) → length bytes < header_size bytes → Front bytes
  frame :
      4 ≤ length bytes → IsSize (header_size bytes) → header_size bytes ≤ length bytes → Front bytes

front : (bytes : List ℕ) → Front bytes
front bytes = elim (order (length bytes) 4) [
  | inl short ↦ no_header short
  | inr headed ↦ elim (IsSize-cases (header_size bytes)) [
    | inl bad ↦ no_size headed bad
    | inr good ↦ elim (order (length bytes) (header_size bytes)) [
      | inl partial ↦ part headed good partial
      | inr whole ↦ frame headed good whole
    ]
  ]
]

-- More fuel than bytes makes no difference.
parse-fuel :
    (k j : ℕ) (bytes : List ℕ) → length bytes ≤ k → length bytes ≤ j → parse k bytes ≡ parse j bytes
parse-fuel zero j bytes h k =
    parse_short zero bytes (omega arith) ∙ sym (parse_short j bytes (omega arith))
parse-fuel (suc n) zero bytes h k =
    parse_short (suc n) bytes (omega arith) ∙ sym (parse_short zero bytes (omega arith))
parse-fuel (suc n) (suc j) bytes h k = elim (front bytes) [
  | no_header short ↦ parse_short (suc n) bytes short ∙ sym (parse_short (suc j) bytes short)
  | no_size headed bad ↦ parse_bad n bytes headed bad ∙ sym (parse_bad j bytes headed bad)
  | part headed good less ↦
      parse_wait n bytes headed good.not_short good.not_long less
      ∙ sym (parse_wait j bytes headed good.not_short good.not_long less)
  | frame headed good whole ↦
      parse_frame n bytes headed good.not_short good.not_long whole
      ∙ ap (cons_frame (take (header_size bytes) bytes)) (
          parse-fuel n j (drop (header_size bytes) bytes)
            (omega (arith, length-drop (header_size bytes) bytes, good.not_short))
            (omega (arith, length-drop (header_size bytes) bytes, good.not_short)))
      ∙ sym (parse_frame j bytes headed good.not_short good.not_long whole)
]

abbrev pub behind : List (List ℕ) → Parsed → Parsed
behind fs q = record q { frames = fs ++ q.frames }

Waits : Verdict → Type 0
Waits waiting = Unit
Waits malformed = ⊥

not_waiting : malformed ≢ waiting
unfolding Waits
not_waiting e = subst Waits (sym e) tt

-- The parser going on with `ys` behind what it has left; a malformed stream stays so.
pub resumed : Verdict → List (List ℕ) → List ℕ → List ℕ → Parsed
resumed waiting fs rest ys = record (frames_of (rest ++ ys)) {
  frames = fs ++ (frames_of (rest ++ ys)).frames;
}
resumed malformed fs rest ys = record { frames = fs; rest = rest ++ ys; verdict = malformed }

abbrev pub resume : Parsed → List ℕ → Parsed
resume p ys = resumed p.verdict p.frames p.rest ys

resumed-cons :
    (f : List ℕ) (v : Verdict) (fs : List (List ℕ)) (rest ys : List ℕ)
    → cons_frame f (resumed v fs rest ys) ≡ resumed v (f ∷ fs) rest ys
unfolding resumed
resumed-cons f waiting fs rest ys = refl
resumed-cons f malformed fs rest ys = refl

whole_stream :
    (k j : ℕ) (xs ys : List ℕ)
    → length xs + length ys ≤ j
    → parse k xs ≡ stop xs waiting
    → parse j (xs ++ ys) ≡ resume (parse k xs) ys
unfolding frames_of resumed
whole_stream k j xs ys enough stopped =
    parse-fuel j (length (xs ++ ys)) (xs ++ ys) (omega (arith, length-append xs ys)) (omega arith)
    ∙ sym (ap (λ q. resume q ys) stopped)

cut_off :
    (k j : ℕ) (xs ys : List ℕ)
    → 4 ≤ length xs
    → (header_size xs < 4) ⊎ (limit < header_size xs)
    → parse (suc j) (xs ++ ys) ≡ resume (parse (suc k) xs) ys
unfolding resumed
cut_off k j xs ys headed bad =
    parse_bad j (xs ++ ys) (omega (arith, length-append xs ys))
      (subst (λ n. (n < 4) ⊎ (limit < n)) (sym (header_size-append xs ys headed)) bad)
    ∙ sym (ap (λ q. resume q ys) (parse_bad k xs headed bad))

-- A stream in two parts is parsed like its first part, and then what that leaves with the second
-- part behind it.
pub parse-append :
    (k j : ℕ) (xs ys : List ℕ)
    → length xs ≤ k
    → length xs + length ys ≤ j
    → parse j (xs ++ ys) ≡ resume (parse k xs) ys
parse-append zero j xs ys h g = whole_stream zero j xs ys g (parse_short zero xs (omega arith))
parse-append (suc k) zero xs ys h g =
    whole_stream (suc k) zero xs ys g (parse_short (suc k) xs (omega arith))
parse-append (suc k) (suc j) xs ys h g = elim (front xs) [
  | no_header short ↦ whole_stream (suc k) (suc j) xs ys g (parse_short (suc k) xs short)
  | no_size headed bad ↦ cut_off k j xs ys headed bad
  | part headed good less ↦
      whole_stream (suc k) (suc j) xs ys g
        (parse_wait k xs headed good.not_short good.not_long less)
  | frame headed good whole ↦
      let size = header_size xs in
      let same : header_size (xs ++ ys) ≡ size = header_size-append xs ys headed in
      let long : length (xs ++ ys) ≡ length xs + length ys = length-append xs ys in
      let later = parse k (drop size xs) in
      parse_frame j (xs ++ ys) (omega arith) (omega (arith, good.not_short))
        (omega (arith, good.not_long)) (omega (arith, whole))
      ∙ ap₂ cons_frame (ap (λ n. take n (xs ++ ys)) same ∙ take-append_le size xs ys whole) (
          ap (parse j) (ap (λ n. drop n (xs ++ ys)) same ∙ drop-append_le size xs ys whole)
          ∙ parse-append k j (drop size xs) ys (omega (arith, length-drop size xs, good.not_short))
              (omega (arith, length-drop size xs, good.not_short)))
      ∙ resumed-cons (take size xs) later.verdict later.frames later.rest ys
      ∙ sym (ap (λ q. resume q ys) (parse_frame k xs headed good.not_short good.not_long whole))
]

pub frames_of-append : (xs ys : List ℕ) → frames_of (xs ++ ys) ≡ resume (frames_of xs) ys
unfolding frames_of
frames_of-append xs ys =
    parse-append (length xs) (length (xs ++ ys)) xs ys (omega arith)
      (omega (arith, length-append xs ys))

-- No whole frame is in front.
abbrev pub IsSettled : List ℕ → Type 0
IsSettled xs = frames_of xs ≡ stop xs waiting

no_more : (fs gs : List (List ℕ)) → fs ≡ fs ++ gs → gs ≡ []
no_more fs gs e = none_of gs (omega (arith, ap length e, length-append fs gs))
  where
    none_of : (gs : List (List ℕ)) → length gs ≡ 0 → gs ≡ []
    none_of [] h = refl
    none_of (g ∷ gs) h = absurd (omega arith)

parsed_eq : (p q : Parsed) → p.frames ≡ q.frames → p.rest ≡ q.rest → p.verdict ≡ q.verdict → p ≡ q
parsed_eq p q f r v =
    ap₂ (λ fs rest. record { frames = fs; rest = rest; verdict = p.verdict }) f r
    ∙ ap (λ v. record q { verdict = v }) v

settled :
    (v : Verdict) (fs : List (List ℕ)) (rest : List ℕ)
    → resumed v fs rest [] ≡ record { frames = fs; rest = rest; verdict = v }
    → v ≡ waiting
    → IsSettled rest
unfolding resumed
settled waiting fs rest e w =
    ap frames_of (sym (append-nil rest))
    ∙ parsed_eq (frames_of (rest ++ [])) (stop rest waiting)
        (no_more fs (frames_of (rest ++ [])).frames (sym (ap (λ (q : Parsed). q.frames) e)))
        (ap (λ (q : Parsed). q.rest) e) (ap (λ (q : Parsed). q.verdict) e)
settled malformed fs rest e w = absurd (not_waiting w)

-- What the parser leaves of a stream in order has no whole frame in front.
pub rest-IsSettled :
    (xs : List ℕ) → (frames_of xs).verdict ≡ waiting → IsSettled (frames_of xs).rest
rest-IsSettled xs ok =
    settled (frames_of xs).verdict (frames_of xs).frames (frames_of xs).rest
      (sym (frames_of-append xs []) ∙ ap frames_of (append-nil xs)) ok

verdict_front :
    (v : Verdict) (fs : List (List ℕ)) (rest ys : List ℕ)
    → (resumed v fs rest ys).verdict ≡ waiting
    → v ≡ waiting
unfolding resumed
verdict_front waiting fs rest ys ok = refl
verdict_front malformed fs rest ys ok = ok

-- The front of a stream in order is in order.
pub front_waits :
    (xs ys : List ℕ) → (frames_of (xs ++ ys)).verdict ≡ waiting → (frames_of xs).verdict ≡ waiting
front_waits xs ys ok =
    verdict_front (frames_of xs).verdict (frames_of xs).frames (frames_of xs).rest ys
      (sym (ap (λ (q : Parsed). q.verdict) (frames_of-append xs ys)) ∙ ok)

frames_behind :
    (v : Verdict) (fs : List (List ℕ)) (rest ys : List ℕ)
    → v ≡ waiting
    → resumed v fs rest ys ≡ resumed waiting fs rest ys
frames_behind v fs rest ys e = ap (λ v. resumed v fs rest ys) e

-- The stream in order has the frames of its front, and then those of what this leaves.
pub frames_behind_lem :
    (xs ys : List ℕ)
    → (frames_of xs).verdict ≡ waiting
    → frames_of (xs ++ ys) ≡ behind (frames_of xs).frames (frames_of ((frames_of xs).rest ++ ys))
unfolding resumed
frames_behind_lem xs ys ok =
    frames_of-append xs ys
    ∙ frames_behind (frames_of xs).verdict (frames_of xs).frames (frames_of xs).rest ys ok

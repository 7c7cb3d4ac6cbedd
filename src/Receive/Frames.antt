-- ===== src/Receive/Frames.antt =====
-- The packet stream that the receive loop is meant to recognise, as a parser of bytes.
use iocpserver.Prelude.{
  ℕ, zero, suc, ◌≤◌, ◌<◌, ◌≡◌, refl, ◌||◌, ◌⊎◌, inl, inr, List, [], ◌∷◌, length, take, drop, ltb,
  lt→ltb, le→ltb, if◌then◌else◌, Bool-cases,
}
use iocpserver.Packet.Header.{header_size}

-- A frame may not be shorter than a header, nor longer than the buffer.
pub data Verdict : Type 0 where
  waiting malformed : Verdict

pub record Parsed : Type 0 where
  pub frames : List (List ℕ)
  pub rest : List ℕ
  pub verdict : Verdict

abbrev pub limit : ℕ
limit = 8192

abbrev pub stop : List ℕ → Verdict → Parsed
stop rest v = record { frames = []; rest = rest; verdict = v }

abbrev pub cons_frame : List ℕ → Parsed → Parsed
cons_frame f p = record p { frames = f ∷ p.frames }

-- With as much fuel as bytes the fuel does not run out.
unfoldable pub parse : ℕ → List ℕ → Parsed
parse zero bytes = stop bytes waiting
parse (suc fuel) bytes =
    let more =
      cons_frame (take (header_size bytes) bytes) (parse fuel (drop (header_size bytes) bytes)) in
    if ltb (length bytes) 4
    then stop bytes waiting
    else if ltb (header_size bytes) 4 || ltb limit (header_size bytes)
    then stop bytes malformed
    else if ltb (length bytes) (header_size bytes)
    then stop bytes waiting
    else more

unfoldable pub frames_of : List ℕ → Parsed
frames_of bytes = parse (length bytes) bytes

pub parse_short : (k : ℕ) (bytes : List ℕ) → length bytes < 4 → parse k bytes ≡ stop bytes waiting
unfolding parse
parse_short zero bytes h = refl
parse_short (suc k) bytes h = rw (lt→ltb (length bytes) 4 h)

pub parse_bad :
    (k : ℕ) (bytes : List ℕ)
    → 4 ≤ length bytes
    → (header_size bytes < 4) ⊎ (limit < header_size bytes)
    → parse (suc k) bytes ≡ stop bytes malformed
unfolding parse
parse_bad k bytes h (inl short) = rw (le→ltb (length bytes) 4 h, lt→ltb (header_size bytes) 4 short)
parse_bad k bytes h (inr long) = elim (Bool-cases (ltb (header_size bytes) 4)) [
  | inl short ↦ rw (le→ltb (length bytes) 4 h, short)
  | inr other ↦ rw (le→ltb (length bytes) 4 h, other, lt→ltb limit (header_size bytes) long)
]

module _ (k : ℕ) (bytes : List ℕ) (h : 4 ≤ length bytes) where
  module _ (short : 4 ≤ header_size bytes) (long : header_size bytes ≤ limit) where
    pub parse_wait : length bytes < header_size bytes → parse (suc k) bytes ≡ stop bytes waiting
    unfolding parse
    parse_wait w = rw (
      le→ltb (length bytes) 4 h,
      le→ltb (header_size bytes) 4 short,
      le→ltb limit (header_size bytes) long,
      lt→ltb (length bytes) (header_size bytes) w,
    )

    pub parse_frame :
        header_size bytes ≤ length bytes
        → parse (suc k) bytes
          ≡ cons_frame (take (header_size bytes) bytes) (parse k (drop (header_size bytes) bytes))
    unfolding parse
    parse_frame w = rw (
      le→ltb (length bytes) 4 h,
      le→ltb (header_size bytes) 4 short,
      le→ltb limit (header_size bytes) long,
      le→ltb (length bytes) (header_size bytes) w,
    )

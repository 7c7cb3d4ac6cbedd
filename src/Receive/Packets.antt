-- ===== src/Receive/Packets.antt =====
-- Packets that a sender lays one behind the other.
use iocpserver.Prelude.{
  ℕ, zero, suc, ◌+◌, ◌≤◌, ◌≡◌, refl, sym, ap, ap₂, ◌∙◌, List, [], ◌∷◌, ◌++◌, length, take, drop,
  arith, length-append, take-append_eq, drop-append_ge, take-append_le,
}
use iocpserver.Packet.Header.{header_size, header_size-take}
use iocpserver.Receive.Frames.{waiting, parse, frames_of, cons_frame, limit, parse_frame}

-- A packet whose header states its length.
pub record IsPacket (f : List ℕ) : Type 0 where
  pub states : header_size f ≡ length f
  pub not_short : 4 ≤ length f
  pub not_long : length f ≤ limit

abbrev pub ArePackets : List (List ℕ) → Type 0
ArePackets [] = Unit {0}
ArePackets (f ∷ fs) = IsPacket f × ArePackets fs

abbrev pub laid : List (List ℕ) → List ℕ
laid [] = []
laid (f ∷ fs) = f ++ laid fs

pub header_size-append : (f ys : List ℕ) → 4 ≤ length f → header_size (f ++ ys) ≡ header_size f
header_size-append f ys h =
    sym (header_size-take (f ++ ys)) ∙ ap header_size (take-append_le 4 f ys h) ∙ header_size-take f

-- Taking the packets off leaves what stands behind them.
pub parse-laid :
    (fs : List (List ℕ)) (k : ℕ)
    → ArePackets fs
    → length (laid fs) ≤ k
    → parse k (laid fs) ≡ record { frames = fs; rest = []; verdict = waiting }
unfolding parse
parse-laid [] zero h enough = refl
parse-laid [] (suc k) h enough = refl
parse-laid (f ∷ fs) zero h enough = absurd (omega (arith, length-append f (laid fs), h.0.not_short))
parse-laid (f ∷ fs) (suc k) h enough =
    parse_frame k bytes (omega (arith, total, h.0.not_short)) (omega (arith, size, h.0.not_short))
      (omega (arith, size, h.0.not_long)) (omega (arith, size, total))
    ∙ ap₂ cons_frame (ap (λ n. take n bytes) size ∙ take-append_eq (length f) f (laid fs) refl) (
        ap (parse k)
          (ap (λ n. drop n bytes) size ∙ drop-append_ge (length f) 0 f (laid fs) (omega arith))
        ∙ parse-laid fs k h.1 (omega (arith, total, h.0.not_short)))
  where
    bytes : List ℕ
    bytes = f ++ laid fs

    total : length bytes ≡ length f + length (laid fs)
    total = length-append f (laid fs)

    size : header_size bytes ≡ length f
    size = header_size-append f (laid fs) h.0.not_short ∙ h.0.states

-- The parser takes packets one behind the other apart.
pub frames_of-laid :
    (fs : List (List ℕ))
    → ArePackets fs
    → frames_of (laid fs) ≡ record { frames = fs; rest = []; verdict = waiting }
unfolding frames_of
frames_of-laid fs good = parse-laid fs (length (laid fs)) good (omega arith)

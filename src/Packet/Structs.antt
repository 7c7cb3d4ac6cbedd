-- ===== src/Packet/Structs.antt =====
-- ServerCommon/PacketStruct.h: each packed struct as the bytes that are sent, by its fields. The
-- constructors zero the fields; a field that is copied in is cut or padded to its length.
use iocpserver.Prelude.{
  ℕ, zero, suc, ap, ◌+◌, ◌-◌, ◌*◌, ◌/◌, ◌%◌, ◌^◌, ◌≤◌, ◌<◌, ◌≡◌, refl, List, [], ◌∷◌, ◌++◌, length,
  take, replicate, arith, length-append, length-take, length-replicate,
}
use iocpserver.Packet.{
  max_id_length, max_pw_length, max_chat_length, db_msg_length, cm_echo, cm_chat, sm_echo, sm_chat,
  cm_login, sm_login, dcm_echo, dsm_echo, size_cp_echo, size_sp_echo, size_cp_login, size_sp_login,
  size_cp_chat, size_sp_chat, size_dsp_echo,
}
use iocpserver.Packet.Header.{header, header_size, header_id, header_round_trip}

-- A char array of `n` bytes that holds `bytes`.
unfoldable pub field : ℕ → List ℕ → List ℕ
field n bytes = take n bytes ++ replicate (n - length bytes) 0

-- Little-endian integers of `k` bytes; a negative one in two's complement.
unfoldable pub le_bytes : ℕ → ℕ → List ℕ
le_bytes zero n = []
le_bytes (suc k) n = n % 256 ∷ le_bytes k (n / 256)

-- The integer that little-endian bytes are.
abbrev pub value_of : List ℕ → ℕ
value_of [] = 0
value_of (b ∷ bs) = b + 256 * value_of bs

unfoldable pub cp_echo : List ℕ → List ℕ
cp_echo msg = header size_cp_echo cm_echo ++ field max_chat_length msg

unfoldable pub sp_echo : List ℕ → List ℕ
sp_echo msg = header size_sp_echo sm_echo ++ field max_chat_length msg

unfoldable pub cp_login : List ℕ → List ℕ → List ℕ
cp_login id pw = header size_cp_login cm_login ++ (field max_id_length id ++ field max_pw_length pw)

unfoldable pub sp_login : ℕ → ℕ → List ℕ → List ℕ → List ℕ
sp_login result unique id pw =
    header size_sp_login sm_login
    ++ (le_bytes 4 result
        ++ (le_bytes 8 unique ++ (field max_id_length id ++ field max_pw_length pw)))

unfoldable pub cp_chat : List ℕ → List ℕ
cp_chat chat = header size_cp_chat cm_chat ++ field max_chat_length chat

unfoldable pub sp_chat : ℕ → List ℕ → List ℕ → List ℕ
sp_chat unique id chat =
    header size_sp_chat sm_chat
    ++ (le_bytes 8 unique ++ (field max_id_length id ++ field max_chat_length chat))

unfoldable pub dcp_echo : List ℕ → List ℕ
dcp_echo msg = header (4 + db_msg_length) dcm_echo ++ field db_msg_length msg

unfoldable pub dsp_echo : List ℕ → List ℕ
dsp_echo msg = header size_dsp_echo dsm_echo ++ field db_msg_length msg

pub length-field : (n : ℕ) (bytes : List ℕ) → length (field n bytes) ≡ n
unfolding field
length-field n bytes = omega (
  arith,
  length-append (take n bytes) (replicate (n - length bytes) 0),
  length-take n bytes,
  length-replicate {A = ℕ} (n - length bytes) 0,
)

pub length-le_bytes : (k n : ℕ) → length (le_bytes k n) ≡ k
unfolding le_bytes
length-le_bytes zero n = refl
length-le_bytes (suc k) n = ap suc (length-le_bytes k (n / 256))

length-header : (size id : ℕ) (rest : List ℕ) → length (header size id ++ rest) ≡ 4 + length rest
unfolding header
length-header size id rest = omega arith

-- A header that states the length of what it heads.
abbrev pub IsSent : ℕ → List ℕ → Type 0
IsSent id bytes =
    (header_size bytes ≡ length bytes)
    × (header_id bytes ≡ id)
    × (4 ≤ length bytes)
    × (length bytes ≤ 8192)

IsSent-header :
    (size id : ℕ) (rest : List ℕ)
    → id < 2 ^ 16
    → size ≤ 8192
    → size ≡ 4 + length rest
    → IsSent id (header size id ++ rest)
IsSent-header size id rest h k e =
    let (s, i) = header_round_trip size id rest (omega arith) h in
    (
      omega (arith, s, length-header size id rest),
      i,
      omega (arith, length-header size id rest),
      omega (arith, length-header size id rest),
    )

-- What the constructors make is a packet that the receive loop takes whole: its header states its
-- length, which lies between a header and the receive buffer, and its own id.
pub structs-IsSent :
    (text id pw : List ℕ) (result unique : ℕ)
    → IsSent cm_echo (cp_echo text)
      × IsSent sm_echo (sp_echo text)
      × IsSent cm_login (cp_login id pw)
      × IsSent sm_login (sp_login result unique id pw)
      × IsSent cm_chat (cp_chat text)
      × IsSent sm_chat (sp_chat unique id text)
      × IsSent dcm_echo (dcp_echo text)
      × IsSent dsm_echo (dsp_echo text)
unfolding cp_echo sp_echo cp_login sp_login cp_chat sp_chat dcp_echo dsp_echo
structs-IsSent text id pw result unique = (
  IsSent-header size_cp_echo cm_echo _ (omega arith) (omega arith)
      (omega (arith, length-field 1000 text)),
  IsSent-header size_sp_echo sm_echo _ (omega arith) (omega arith)
      (omega (arith, length-field 1000 text)),
  IsSent-header size_cp_login cm_login _ (omega arith) (omega arith) (
      omega (
        arith,
        length-append (field 300 id) (field 300 pw),
        length-field 300 id,
        length-field 300 pw,
      )),
  IsSent-header size_sp_login sm_login _ (omega arith) (omega arith) (
      omega (
        arith,
        length-append (le_bytes 4 result) (le_bytes 8 unique ++ (field 300 id ++ field 300 pw)),
        length-append (le_bytes 8 unique) (field 300 id ++ field 300 pw),
        length-append (field 300 id) (field 300 pw),
        length-field 300 id,
        length-field 300 pw,
        length-le_bytes 4 result,
        length-le_bytes 8 unique,
      )),
  IsSent-header size_cp_chat cm_chat _ (omega arith) (omega arith)
      (omega (arith, length-field 1000 text)),
  IsSent-header size_sp_chat sm_chat _ (omega arith) (omega arith) (
      omega (
        arith,
        length-append (le_bytes 8 unique) (field 300 id ++ field 1000 text),
        length-append (field 300 id) (field 1000 text),
        length-field 300 id,
        length-field 1000 text,
        length-le_bytes 8 unique,
      )),
  IsSent-header (4 + db_msg_length) dcm_echo _ (omega arith) (omega arith)
      (omega (arith, length-field 256 text)),
  IsSent-header size_dsp_echo dsm_echo _ (omega arith) (omega arith)
      (omega (arith, length-field 256 text)),
)

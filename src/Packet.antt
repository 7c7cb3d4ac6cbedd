-- ===== src/Packet.antt =====
-- ServerCommon/PacketStruct.h and PacketID.h: the packed structs as byte layouts, and their
-- constructors as the bytes that are sent.
pub mod Header
pub mod Structs
use iocpserver.Prelude.{ℕ, ◌+◌, ◌*◌, List, ◌++◌, replicate}
use Header.{header}

-- MAX_ID_LENGTH, MAX_PW_LENGTH and MAX_CHAT_LENGTH of Defines.h.
abbrev pub max_id_length : ℕ
max_id_length = 300

abbrev pub max_pw_length : ℕ
max_pw_length = 300

abbrev pub max_chat_length : ℕ
max_chat_length = 1000

abbrev pub db_msg_length : ℕ
db_msg_length = 256

-- PacketID.
abbrev pub cm_echo : ℕ
cm_echo = 1

abbrev pub cm_chat : ℕ
cm_chat = 2

abbrev pub sm_echo : ℕ
sm_echo = 3

abbrev pub sm_chat : ℕ
sm_chat = 4

abbrev pub cm_login : ℕ
cm_login = 5

abbrev pub sm_login : ℕ
sm_login = 6

-- DBPacketID.
abbrev pub dcm_echo : ℕ
dcm_echo = 1

abbrev pub dsm_echo : ℕ
dsm_echo = 2

-- sizeof of each struct, under `#pragma pack(1)`.
abbrev pub size_cp_echo : ℕ
size_cp_echo = 4 + max_chat_length

abbrev pub size_sp_echo : ℕ
size_sp_echo = 4 + max_chat_length

abbrev pub size_cp_login : ℕ
size_cp_login = 4 + max_id_length + max_pw_length

abbrev pub size_sp_login : ℕ
size_sp_login = 4 + 4 + 8 + max_id_length + max_pw_length

abbrev pub size_cp_chat : ℕ
size_cp_chat = 4 + max_chat_length

abbrev pub size_sp_chat : ℕ
size_sp_chat = 4 + 8 + max_id_length + max_chat_length

abbrev pub size_dsp_echo : ℕ
size_dsp_echo = 4 + db_msg_length

-- ===== src/Gate.antt =====
-- GateServer/GatePacketHandler.cpp and GameDB/GameDBPacketHandler.cpp: the packets that the gate
-- passes on to the game server, and the echo of the database server. The gate's own echo uses a
-- packet, PACKET_MSG_ECHO, that the repository does not have.
use iocpserver.Prelude.{
  ℕ, ◌||◌, Option, none, some, List, length, take, drop, ltb, leb, if◌then◌else◌,
}
use iocpserver.World.{World, SessionClass, Os}
use iocpserver.Session.{send_packet}
use iocpserver.Packet.{db_msg_length}
use iocpserver.Packet.Header.{header_size}
use iocpserver.Packet.Structs.{dsp_echo}
use iocpserver.Game.Handlers.{c_string}

module _ (os : Os) where
  -- SendToGame: only to a session of a server, as the cast tells, and to it twice.
  unfoldable pub send_to_class : World → ℕ → List ℕ → SessionClass → World
  send_to_class w p packet SessionClass.client_session = w
  send_to_class w p packet SessionClass.server_session =
      send_packet os (send_packet os w p packet) p packet

  unfoldable pub send_to_game : World → ℕ → List ℕ → World
  unfolding send_to_class
  send_to_game w p bytes =
      send_to_class w p (take (header_size bytes) bytes) (w.session p).dynamic_type

  -- Handle_Eco of the database server; `none` is a text that the reply has no room for, or a size
  -- below that of a header.
  unfoldable pub handle_dbs_eco : World → ℕ → List ℕ → ℕ → Option World
  handle_dbs_eco w p bytes size =
      let msg = c_string (drop 4 (take size bytes)) in
      if ltb size 4 || leb db_msg_length (length msg)
      then none
      else some (send_packet os w p (dsp_echo msg))

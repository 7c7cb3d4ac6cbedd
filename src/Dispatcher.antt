-- ===== src/Dispatcher.antt =====
-- ServerCoreLibrary/PacketDispatcher.h and PacketDispatcher.cpp (ServerCore/ holds the same text):
-- handlers by packet id. A handler may meet undefined behaviour (`none`).
pub mod Laws
use iocpserver.Prelude.{ℕ, Option, none, some, List, [], ◌∷◌, ◌++◌, ◌==◌, ltb, if◌then◌else◌}
use iocpserver.Packet.Header.{header_id, packet_header_size}

-- HandlerFunc: the session's address, the packet's bytes and their number.
abbrev pub Handler {ℓ} : Type ℓ → Type ℓ
Handler W = W → ℕ → List ℕ → ℕ → Option W

abbrev pub Handlers {ℓ} : Type ℓ → Type ℓ
Handlers W = List (ℕ × Handler W)

module _ {ℓ} {W : Type ℓ} where
  unfoldable pub find : ℕ → Handlers W → Option (Handler W)
  find id [] = none
  find id ((j, h) ∷ hs) = if j == id then some h else find id hs

  insert_new : Option (Handler W) → ℕ → Handler W → Handlers W → Handlers W
  insert_new none id h hs = hs ++ ((id, h) ∷ [])
  insert_new (some old) id h hs = hs

  -- A second registration of an id is logged and ignored.
  unfoldable pub register : ℕ → Handler W → Handlers W → Handlers W
  unfolding insert_new
  register id h hs = insert_new (find id hs) id h hs

  run_handler : Option (Handler W) → W → ℕ → List ℕ → ℕ → Option W
  run_handler none w p bytes size = some w
  run_handler (some h) w p bytes size = h w p bytes size

  -- A packet that is too short, and one with no handler, are logged and dropped.
  unfoldable pub dispatch : Handlers W → W → ℕ → List ℕ → ℕ → Option W
  unfolding run_handler
  dispatch hs w p bytes size =
      if ltb size packet_header_size
      then some w
      else run_handler (find (header_id bytes) hs) w p bytes size

-- ===== src/World.antt =====
-- The globals of the VFM that its packet threads share: what src/vps/vfm/config.c and
-- src/vps/vfm/net_util.c set up before the threads start, and the state that the threads change.
use vfm.Base.{ℕ, Bool, Option, List}
use vfm.Ether.{Mac, Name}
use vfm.Fip.Memory.{Object}
use vfm.ReqMap.{ReqMap}

-- `uint8_t g_fc_map[3]`
pub data FcMap : Type 0 where
  fc_map : (b₀ b₁ b₂ : ℕ) → FcMap

-- the globals that stay as they are
pub record Config : Type 0 where
  pub g_local_mac : Mac
  pub g_bridge_mac : Mac
  pub g_bridge_enc_mac : Mac
  pub g_fc_map : FcMap
  pub g_wwnn : Name
  pub g_wwpn : Name
  pub g_fcoe_t11 : ℕ

-- What the code calls and does not implement: whether `open_socket` succeeds, whether `sendto`
-- accepts a frame, and the Ethernet CRC of a buffer.
pub record Env : Type 0 where
  pub opens : Bool
  pub accepts : List ℕ → Bool
  pub ether_crc32_le : List ℕ → ℕ

-- `send_sd != -1`; the frames on the wire, oldest first; `g_req_map`; `g_gw_src_id`; the
-- solicitations handed to the database; the status of `exit`, once it is called.
pub record World : Type 0 where
  pub socket_open : Bool
  pub wire : List (List ℕ)
  pub req_map : ReqMap
  pub g_gw_src_id : ℕ
  pub io_modules : List Object
  pub exited : Option ℕ

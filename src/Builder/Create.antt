-- ===== src/Builder/Create.antt =====
-- `create_packet` of src/vps/vfm/vfm_create_pk.c: the packets that the VFM sends of its own accord.
use vfm.Base.{ℕ, ◌+◌, true, ◌&&◌, List, ◌==◌, if◌then◌else◌, drop}
use vfm.Outcome.{Outcome, ok, fault, ◌>>=◌}
use vfm.Ether.{is_multicast_ether_addr}
use vfm.Fip.{CtrlHdr, take16, take_mac}
use vfm.World.{Config, Env, World}
use vfm.Sender.{send_packet, sent}
use vfm.Builder.{prepare_fcoe_vhba_advertisement, default_tunnel, vpsystem}

-- A gateway advertisement to the address at the front of `at`, the memory at the pointer.
unfoldable pub advertise :
    Config → Env → World → (padding : ℕ × ℕ) → (unicast_flags : ℕ) → List ℕ → Outcome World
unfolding prepare_fcoe_vhba_advertisement is_multicast_ether_addr
advertise cfg env w padding unicast_flags at = do
  (conx, _) ← take_mac at
  let c : CtrlHdr = record {
    opcode = 1;
    reserved = 0;
    subcode = 2;
    desc_list_length = 12;
    flags = if is_multicast_ether_addr conx == 0 then 0xC001 + unicast_flags else 0xC001;
  }
  msg_desc ← prepare_fcoe_vhba_advertisement cfg padding c
  (max_recv, _) ← take16 (drop 14 at)
  sent (
      send_packet cfg env w true cfg.g_local_mac conx cfg.g_bridge_mac (default_tunnel vpsystem 0) c
        msg_desc)

-- Its descriptor is a pointer that was never set.
unfoldable pub fcoe_bridge_adv_res : Outcome World
fcoe_bridge_adv_res = fault

-- The flags `SET_A | SET_S` or `SET_S` are added for a unicast address. The branch `(3, 2)` calls
-- a function with an empty body.
unfoldable pub create_packet :
    Config → Env → World → (padding : ℕ × ℕ) → (op subop : ℕ) → List ℕ → Outcome World
unfolding advertise fcoe_bridge_adv_res
create_packet cfg env w padding op subop at =
    if op == 1 && subop == 2
    then advertise cfg env w padding 6 at
    else if op == 121 && subop == 1
    then fcoe_bridge_adv_res
    else if op == 3 && subop == 2
    then ok w
    else if op == 3 && subop == 1
    then advertise cfg env w padding 2 at
    else ok w

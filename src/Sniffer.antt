-- ===== src/Sniffer.antt =====
-- src/vps/vfm/sniffer.c: what is done with one received frame. `pos` is `*ret_pos`. The result is the
-- state afterwards; on an error code (`err`) the state is unchanged.
pub mod Process
pub mod Dispatch
pub mod Exchange
pub mod Login
pub mod Own
pub mod Reject
pub mod Els
use Prim.Native.Nat.{bit_or}
use vfm.Base.{
  ℕ, ◌+◌, ◌-◌, ◌*◌, ◌/◌, ◌%◌, ◌^◌, Bool, true, false, not, ◌&&◌, Option, none, some, List, [], ◌∷◌,
  ◌++◌, ◌==◌, ltb, if◌then◌else◌, get_elem?, length, take, drop, sub32, le16, le32, swap16, swap32,
}
use vfm.Outcome.{VpsError, ignore, incomplete_pk, Outcome, ok, err, fault, or_fault, ◌>>=◌}
use vfm.Ether.{mac_bytes}
use vfm.Fip.{EthHdr, FcHdr, CtrlHdr, TunnelHdr, dword, fcoe_eth_type, fc_image}
use vfm.Fip.Memory.{Object, slice}
use vfm.Fip.Read.{
  read_eth_hdr, read_fc_hdr, read_tunnel_hdr, read_ctrl_hdr, tunnel_hdr_len, fc_hdr_len,
}
use vfm.Fip.Tlv.{Memory}
use vfm.Fip.Descriptor.{fcoe_conx_discovery, fcoe_vhba_keep_alive, fcoe_vhba_deregister}
use vfm.ReqMap.{Entry, get_entry_from_map, remove_entry_from_map}
use vfm.TaskQueue.{Job}
use vfm.World.{Config, Env, World}
use vfm.Sender.{send_fc_packet, sent}
use vfm.Builder.{create_packet_ex, create_reject_els, prepare_fdisc_res, fc_map_bytes}
use vfm.Builder.Create.{create_packet}

-- What the locals of `decide_packet` and of the functions under it hold before they are written,
-- and the bytes behind `multicast_mac`: unlike other reads past the end of an object, those of
-- `create_packet` behind it are no fault, but read `beyond_multicast`.
pub record Stack : Type 0 where
  pub memory : Memory
  pub solicit : Object
  pub alive : Object
  pub dereg : Object
  pub beyond_multicast : List ℕ
  pub padding : ℕ × ℕ

-- `*p`
abbrev pub pointee {ℓ} : {A : Type ℓ} → Option A → Outcome A
pointee p = or_fault p

-- The locals that a function's callee did not write, since it returned an error that is dropped.
unwritten {ℓ} : {A : Type ℓ} → Outcome A → Outcome A
unwritten (ok a) = ok a
unwritten (err e) = fault
unwritten fault = fault

-- Case `(1, 1)`: the solicitation goes to the database.
unfoldable pub solicited : Stack → World → List ℕ → Outcome World
solicited st w desc_buff = do
  solicit ← fcoe_conx_discovery st.memory st.solicit desc_buff
  ok (record w { io_modules = w.io_modules ++ solicit ∷ [] })

-- Case `(3, 1)`: a keep alive is answered by an advertisement.
unfoldable pub kept_alive : Config → Env → Stack → World → List ℕ → Outcome World
kept_alive cfg env st w desc_buff = do
  alive ← fcoe_vhba_keep_alive st.memory st.alive desc_buff
  create_packet cfg env w st.padding 3 1 alive.bytes

-- Case `(3, 2)`: the descriptors are read and dropped.
unfoldable pub deregistered : Stack → World → List ℕ → Outcome World
deregistered st w desc_buff = fcoe_vhba_deregister st.memory st.dereg desc_buff >>= λ _. ok w

abbrev pub multicast_mac : List ℕ
multicast_mac = 0x01 ∷ 0x10 ∷ 0x18 ∷ 0x01 ∷ 0x00 ∷ 0x01 ∷ []

-- The arguments are pointers; `send_gw_ad` passes NULL for three of them.
unfoldable pub decide_packet :
    Config
    → Env
    → Stack
    → World
    → Option EthHdr
    → Option TunnelHdr
    → CtrlHdr
    → Option (List ℕ)
    → Outcome World
unfolding solicited kept_alive deregistered
decide_packet cfg env st w fip_eth_hdr_fw tunnel_hdr c desc_buff =
    if c.opcode == 1
    then (if c.subcode == 1 then pointee desc_buff >>= solicited st w else ok w)
    else if c.opcode == 0xfffa
    then (if c.subcode == 2
        then create_packet cfg env w st.padding 1 2 (multicast_mac ++ st.beyond_multicast)
        else ok w)
    else if c.opcode == 2
    then (if c.subcode == 1
        then (do
          fw ← pointee fip_eth_hdr_fw
          t ← pointee tunnel_hdr
          d ← pointee desc_buff
          create_packet_ex cfg env w fw t c d)
        else ok w)
    else if c.opcode == 3
    then (if c.subcode == 1
        then pointee desc_buff >>= kept_alive cfg env st w
        else if c.subcode == 2
        then pointee desc_buff >>= deregistered st w
        else ok w)
    else ok w

-- `c` is the local header as it happens to be, before its two fields are set.
unfoldable pub send_gw_ad : Config → Env → Stack → World → CtrlHdr → Outcome World
unfolding decide_packet
send_gw_ad cfg env st w c =
    decide_packet cfg env st w none none (record c { opcode = 0xFFFA; subcode = 2 }) none

-- `fc_pk_len` is what the tunnel header says, less the tunnel header and four dwords.
unfoldable pub process_fc_els_req : Config → Env → World → List ℕ → ℕ → TunnelHdr → Outcome World
process_fc_els_req cfg env w buff pos t = do
  let fc_pk_len = sub32 (sub32 (t.length * dword) tunnel_hdr_len) (4 * dword)
  let t : TunnelHdr = record t { port_num = bit_or t.port_num 0x80 }
  sent (send_fc_packet cfg env w cfg.g_local_mac cfg.g_bridge_mac t (drop pos buff) fc_pk_len)

-- The FC header as it goes to the host; `parameter` is not swapped back.
unfoldable pub fc_to_network : FcHdr → FcHdr
fc_to_network h = record h {
  rt_ctrl_dest_id = swap32 h.rt_ctrl_dest_id;
  src_id = swap32 h.src_id;
  type_frame_ctrl = swap32 h.type_frame_ctrl;
  seq_count = swap16 h.seq_count;
  res_id = swap16 h.res_id;
  ox_id = swap16 h.ox_id;
}

-- The FCoE header: the host's address, the bridge's, the ether type, then version, length and SOF
-- in the form of `g_fcoe_t11`. `len` is that of the FC frame.
unfoldable pub fcoe_header : Config → FcHdr → (len : ℕ) → List ℕ
fcoe_header cfg h len =
    fc_map_bytes cfg.g_fc_map
    ++ (take 3 (le32 (swap32 (h.rt_ctrl_dest_id * 256 % 2 ^ 32)))
        ++ (mac_bytes cfg.g_bridge_mac
            ++ (0x89
                ∷ 0x06
                ∷ (if cfg.g_fcoe_t11 == 1
                    then 0 ∷ 0 ∷ 0 ∷ 0 ∷ 0 ∷ 0 ∷ 0 ∷ 0 ∷ 0 ∷ 0 ∷ 0 ∷ 0 ∷ 0 ∷ 0x2e ∷ []
                    else le16 (swap16 ((len + dword) / dword % 1024 * 16 + 14))))))

-- The FCoE frame for the host: header, FC frame, its CRC, and EOF in the tail.
unfoldable pub fcoe_frame : Config → Env → FcHdr → List ℕ → List ℕ
unfolding fcoe_header fc_to_network
fcoe_frame cfg env h payload =
    let fc : List ℕ = fc_image (fc_to_network h) ++ payload in
    fcoe_header cfg h (length fc)
    ++ (fc
        ++ (le32 (2 ^ 32 - 1 - env.ether_crc32_le fc)
            ++ (if cfg.g_fcoe_t11 == 1 then 0x42 ∷ 0 ∷ 0 ∷ 0 ∷ [] else 0x42 ∷ [])))

unfoldable pub process_fc_els_res :
    Config → Env → World → List ℕ → ℕ → ℕ → TunnelHdr → FcHdr → Outcome World
unfolding fcoe_frame
process_fc_els_res cfg env w buff size pos t h = do
  payload ← slice pos (sub32 size pos) buff
  let fcoe_buff = fcoe_frame cfg env h payload
  let n : ℕ = length fcoe_buff
  let t : TunnelHdr = record t {
    port_num = t.port_num % 128;
    length = (n + tunnel_hdr_len) / dword % 256;
  }
  sent (send_fc_packet cfg env w cfg.g_local_mac cfg.g_bridge_mac t fcoe_buff n)

-- The bridge's answer to a request of the VFM's own: a reject ends the process, an accept sets the
-- VFM's address.
unfoldable pub own_login : World → FcHdr → (ls : ℕ) → Outcome World
own_login w h ls = if ls == 0x01 then ok (record w { exited = some 1 }) else do
  m ← remove_entry_from_map w.req_map h.ox_id
  ok (record w { g_gw_src_id = h.rt_ctrl_dest_id % 2 ^ 24; req_map = m })

-- The bridge's answer to a forwarded request.
unfoldable pub host_login :
    Config → Env → World → List ℕ → ℕ → Entry → FcHdr → (ls : ℕ) → Outcome World
host_login cfg env w buff pos e h ls = do
  w ←
      if ls == 0x02
      then prepare_fdisc_res cfg env w buff pos e h true
      else if ls == 0x01
      then prepare_fdisc_res cfg env w buff pos e h false
      else ok w
  m ← remove_entry_from_map w.req_map h.ox_id
  ok (record w { req_map = m })

unfoldable pub process_fc_response :
    Config → Env → World → List ℕ → ℕ → ℕ → TunnelHdr → Outcome World
unfolding unwritten own_login host_login
process_fc_response cfg env w buff size pos t = do
  (h, pos) ← unwritten (read_fc_hdr buff size pos)
  if w.g_gw_src_id == h.rt_ctrl_dest_id % 2 ^ 24
      then create_reject_els cfg env w h
      else if not (h.src_id == 0x00FFFFFE)
      then process_fc_els_res cfg env w buff size pos t h
      else (do
        found ← get_entry_from_map w.req_map h.ox_id
        e ← pointee found
        ls ← or_fault (get_elem? buff pos)
        if e.flag == 1 then own_login w h ls else host_login cfg env w buff pos e h ls)

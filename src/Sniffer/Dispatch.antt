-- ===== src/Sniffer/Dispatch.antt =====
-- Which frames the sniffer passes on, and where they go.
use Prim.Native.Nat.{bit_or}
use vfm.Base.{
  ℕ, ◌+◌, ◌-◌, ◌*◌, ◌/◌, ◌%◌, ◌≤◌, ◌<◌, ◌≡◌, ◌⊎◌, ◌∙◌, inl, inr, true, some, List, ◌∷◌, ◌++◌, arith,
  length, take, drop, sub32, le→ltb, length-drop, take_all, IsByte, le32,
}
use vfm.Outcome.{ok, fault, >>=-ok}
use vfm.Ether.{Mac, mac, mac_bytes, Name, name, name_bytes, is_multicast_ether_addr}
use vfm.Fip.{CtrlHdr, TunnelHdr, dword}
use vfm.Fip.Memory.{store, slice, slice-ok}
use vfm.Fip.Tlv.{get_tlv, get_tlv_value}
use vfm.Fip.Descriptor.{fcoe_vhba_keep_alive}
use vfm.Fip.Read.{read_eth_hdr, read_ctrl_hdr}
use vfm.TaskQueue.{Job, TaskType}
use vfm.World.{Config, Env, World}
use vfm.Sender.{max_pk_len, packet_bytes}
use vfm.Sender.Fc.{fc_frame, after_send, send_fc_packet-sent, send_fc_packet-fault}
use vfm.Sender.Frame.{fip_header, tunnel_read, FieldsFit}
use vfm.Sender.ReadBack.{packet_reads_back, with_length, inner_source}
use vfm.Builder.Create.{create_packet}
use vfm.Builder.Advert.{advert_of, advert_ctrl, pointed, advertised}
use vfm.Sniffer.{Stack, process_fc_els_req, decide_packet, send_gw_ad, kept_alive}
use vfm.Sniffer.Process.{process_packet, process_tunneled, process_control, or_ignore}

-- the payload that the tunnel header claims, behind its own header and the FCoE header
abbrev pub claimed : TunnelHdr → ℕ
claimed t = t.length * dword - 40

-- the tunnel header of a relayed ELS request
abbrev pub e_flagged : TunnelHdr → TunnelHdr
e_flagged t = record t { port_num = bit_or t.port_num 0x80 }

-- A host's ELS request is handed to `sendto` as it is, for the bridge, when the tunnel header
-- claims at least the two headers and no more than the frame holds: the claimed bytes behind
-- the headers, the E flag set.
pub els_relayed :
    (cfg : Config) (env : Env) (w : World) (buff : List ℕ) (pos : ℕ) (t : TunnelHdr)
    → 10 ≤ t.length
    → IsByte t.length
    → pos + claimed t ≤ length buff
    → process_fc_els_req cfg env w buff pos t
      ≡ ok (
          after_send env w (
            fc_frame cfg.g_bridge_mac cfg.g_local_mac
              (e_flagged t)
              (take (claimed t) (drop pos buff))))
unfolding process_fc_els_req
els_relayed cfg env w buff pos t pos10 byte le =
    let n : sub32 (sub32 (t.length * dword) 24) 16 ≡ claimed t = omega arith in
    rw n (
      send_fc_packet-sent cfg env w cfg.g_local_mac cfg.g_bridge_mac (e_flagged t) (drop pos buff)
        (claimed t) (omega (arith, length-drop pos buff)) (omega arith))

-- The claimed length is not compared with the frame: a tunnel header that claims more than was
-- received, or less than the two headers take (the length then wraps around), is read beyond the end.
pub els_overread :
    (cfg : Config) (env : Env) (w : World) (buff : List ℕ) (pos : ℕ) (t : TunnelHdr)
    → IsByte t.length
    → pos ≤ length buff
    → length buff < 65536
    → (t.length < 10) ⊎ (length buff + 40 < pos + t.length * dword)
    → process_fc_els_req cfg env w buff pos t ≡ fault
unfolding process_fc_els_req
els_overread cfg env w buff pos t byte le small (inl short) =
    send_fc_packet-fault cfg env w cfg.g_local_mac cfg.g_bridge_mac (e_flagged t) (drop pos buff)
      (sub32 (sub32 (t.length * dword) 24) 16) (omega (arith, length-drop pos buff))
els_overread cfg env w buff pos t byte le small (inr long) =
    send_fc_packet-fault cfg env w cfg.g_local_mac cfg.g_bridge_mac (e_flagged t) (drop pos buff)
      (sub32 (sub32 (t.length * dword) 24) 16) (omega (arith, length-drop pos buff))

abbrev pub fcoe_multicast : Mac
fcoe_multicast = mac 0x01 0x10 0x18 0x01 0x00 0x01

-- The VFM's own advertisement goes to the FCoE multicast address with the bridge's descriptors, and
-- without the unicast flags. It reads the ten bytes behind `multicast_mac`.
pub gw_ad_sent :
    (cfg : Config) (env : Env) (st : Stack) (w : World) (c : CtrlHdr) (x : Name) (hi lo : ℕ)
    (more : List ℕ)
    → st.beyond_multicast ≡ name_bytes x ++ hi ∷ lo ∷ more
    → (f : List ℕ) × (send_gw_ad cfg env st w c ≡ ok (after_send env w f))
      × (read_eth_hdr f (length f) 40 ≡ ok (fip_header fcoe_multicast cfg.g_bridge_enc_mac, 56))
      × (read_ctrl_hdr f (length f) 56
          ≡ ok (
            record { opcode = 1; reserved = 0; subcode = 2; desc_list_length = 12; flags = 0xC001 },
            64,
          ))
      × (drop 64 f ≡ advert_of cfg ++ le32 0)
unfolding send_gw_ad create_packet is_multicast_ether_addr
gw_ad_sent cfg env st w c x hi lo more e =
    let (f, made, eth, ctrl, rest) =
      advertised cfg env w st.padding 6 fcoe_multicast x hi lo more (omega arith) in
    (f, rw e made, eth, ctrl, rest)

-- The address is written over the first six bytes.
alive_read :
    (cfg : Config) (env : Env) (st : Stack) (w : World) (m old : Mac) (x : Name) (hi lo : ℕ)
    (more rest : List ℕ)
    → st.alive.bytes ≡ mac_bytes old ++ (name_bytes x ++ (hi ∷ lo ∷ more))
    → kept_alive cfg env st w (2 ∷ 2 ∷ mac_bytes m ++ rest)
      ≡ create_packet cfg env w st.padding 3 1 (pointed m (name_bytes x) hi lo more)
unfolding kept_alive fcoe_vhba_keep_alive get_tlv get_tlv_value slice store
alive_read cfg env st w (mac _ _ _ _ _ _) (mac _ _ _ _ _ _) (name _ _ _ _ _ _ _ _) hi lo more rest
      e =
    rw (e, take_all (length more) more (omega arith))

-- A host's keep alive is answered by an advertisement to the address in it. `alive` is the memory
-- of the structure before it is read.
pub keep_alive_answered :
    (cfg : Config) (env : Env) (st : Stack) (w : World) (m old : Mac) (x : Name) (hi lo : ℕ)
    (more rest : List ℕ)
    → st.alive.bytes ≡ mac_bytes old ++ (name_bytes x ++ (hi ∷ lo ∷ more))
    → (f : List ℕ) × (kept_alive cfg env st w (2 ∷ 2 ∷ mac_bytes m ++ rest)
        ≡ ok (after_send env w f))
      × (read_eth_hdr f (length f) 40 ≡ ok (fip_header m cfg.g_bridge_enc_mac, 56))
      × (read_ctrl_hdr f (length f) 56 ≡ ok (advert_ctrl m 2, 64))
      × (drop 64 f ≡ advert_of cfg ++ le32 0)
unfolding create_packet
keep_alive_answered cfg env st w m old x hi lo more rest e =
    let (f, made, eth, ctrl, tail) =
      advertised cfg env w st.padding 2 m x hi lo more (omega arith) in
    (f, alive_read cfg env st w m old x hi lo more rest e ∙ made, eth, ctrl, tail)

-- A control packet as it comes from the network: the frame of `packet_bytes`, a task of the queue.
abbrev pub received : List ℕ → (type : TaskType) → Job
received f type = record { vfm_type = 1; task_type = type; bytes = f; size = length f }

-- A control packet with descriptors, E flag clear, that `send_packet` could have laid out reaches
-- `decide_packet` with the headers that went in: the inner addresses, the tunnel header, the
-- control header, and the descriptors; `process_packet` ends as `decide_packet` does.
pub control_dispatched :
    (cfg : Config) (env : Env) (st : Stack) (w : World) (type : TaskType) (vm cm bm : Mac)
    (t : TunnelHdr) (c : CtrlHdr) (desc : List ℕ)
    → FieldsFit t c
    → t.port_num < 128
    → 1 ≤ c.desc_list_length
    → c.desc_list_length * dword ≤ length desc
    → 68 + c.desc_list_length * dword ≤ max_pk_len
    → (f : List ℕ) × (packet_bytes cfg true vm cm bm t c desc ≡ ok f)
      × (process_packet cfg env st w (received f type)
          ≡ decide_packet cfg env st w
              (some (fip_header cm (inner_source cfg bm c)))
              (some (tunnel_read (with_length t c)))
              c
              (some (take (c.desc_list_length * dword) desc ++ le32 0)))
unfolding process_packet process_tunneled process_control or_ignore
control_dispatched cfg env st w type vm cm bm t c desc fit port one le small =
    let (f, made, size, eth, tun, inner, ctrl, rest) =
      packet_reads_back cfg vm cm bm t c desc fit le small in
    let e_flag : t.port_num / 128 % 2 ≡ 0 = omega arith in
    (
      f,
      made,
      rw
          (
            eth,
            tun,
            e_flag,
            inner,
            ctrl,
            le→ltb (sub32 (length f) 64) (c.desc_list_length * dword) (omega arith),
            slice-ok 64 4 f (omega arith),
            slice-ok 68 4 f (omega arith),
            rest,
          )
          (>>=-ok (
            decide_packet cfg env st w (some (fip_header cm (inner_source cfg bm c)))
              (some (tunnel_read (with_length t c))) c
              (some (take (c.desc_list_length * dword) desc ++ le32 0)))),
    )

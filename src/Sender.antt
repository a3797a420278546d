-- ===== src/Sender.antt =====
-- src/vps/vfm/sender.c: frames laid out in a buffer of `MAX_PK_LEN` bytes and sent. The buffer is the
-- list of the bytes written so far, its length the offset; no byte behind the offset is sent.
pub mod Frame
pub mod ReadBack
pub mod Fc
use vfm.Base.{
  ℕ, ◌+◌, ◌*◌, ◌/◌, ◌%◌, Bool, true, false, not, ◌&&◌, Option, none, some, List, [], ◌∷◌, ◌++◌,
  ◌==◌, ltb, if◌then◌else◌, length, le16, le32, swap16,
}
use vfm.Outcome.{VpsError, sock_open, send_pk, Outcome, ok, fault, ◌>>=◌}
use vfm.Ether.{Mac, mac_bytes}
use vfm.Fip.{
  CtrlHdr, TunnelHdr, dword, fip_eth_type, fip_version, tunnel_hdr_type, ctrl_image, tunnel_image,
}
use vfm.Fip.Memory.{slice}
use vfm.Fip.Read.{ctrl_hdr_len, tunnel_hdr_len}
use vfm.World.{Config, Env, World}

abbrev pub max_pk_len : ℕ
max_pk_len = 1500

-- `sendto` of the frame, after `open_socket` on the first call. A socket that was opened stays
-- open when `sendto` fails.
unfoldable pub send_buffer : Env → World → List ℕ → Option VpsError × World
send_buffer env w frame =
    if not w.socket_open && not env.opens
    then (some sock_open, w)
    else if env.accepts frame
    then (none, record w { socket_open = true; wire = w.wire ++ frame ∷ [] })
    else (some send_pk, record w { socket_open = true })

unfoldable pub fill_ether_hdr : List ℕ → (dhost shost : Mac) → (vlantag : ℕ) → List ℕ
fill_ether_hdr buff dhost shost vlantag =
    buff
    ++ (mac_bytes dhost
        ++ (mac_bytes shost
            ++ ((if vlantag == 0 then [] else le32 vlantag)
                ++ (le16 (swap16 fip_eth_type) ++ le16 (swap16 (fip_version * 4096))))))

unfoldable pub fill_tunnel_hdr : List ℕ → TunnelHdr → List ℕ
fill_tunnel_hdr buff t = buff ++ tunnel_image (record t { type = tunnel_hdr_type })

-- A write past `buff[MAX_PK_LEN]` is out of bounds.
unfoldable pub bounded : List ℕ → Outcome (List ℕ)
bounded frame = if ltb max_pk_len (length frame) then fault else ok frame

-- `htons` of the control header's words
unfoldable pub ctrl_to_network : CtrlHdr → CtrlHdr
ctrl_to_network c = record c {
  opcode = swap16 c.opcode;
  desc_list_length = swap16 c.desc_list_length;
  flags = swap16 c.flags;
}

-- `desc_length`, a `uint16_t`
abbrev pub desc_length : CtrlHdr → ℕ
desc_length c = c.desc_list_length * dword % 65536

-- Steps 1 and 2: the header towards the bridge, the tunnel header, and the header that the bridge
-- forwards. `tunnel_hdr->length` is a byte.
unfoldable pub packet_headers :
    Config
    → (tunnel_flag : Bool) → (vfm_mac conx_mac bridge_mac : Mac) → TunnelHdr
    → CtrlHdr
    → List ℕ
unfolding fill_ether_hdr fill_tunnel_hdr
packet_headers cfg tunnel_flag vfm_mac conx_mac bridge_mac t c =
    let buff = fill_ether_hdr [] cfg.g_bridge_mac vfm_mac 0 in
    if tunnel_flag
    then (let buff = fill_tunnel_hdr buff (record t {
      length = (tunnel_hdr_len + 4 * dword + ctrl_hdr_len + desc_length c) / dword % 256;
    }) in
        if c.opcode == 2 && c.subcode == 1
        then fill_ether_hdr buff conx_mac bridge_mac 0
        else fill_ether_hdr buff conx_mac cfg.g_bridge_enc_mac 0)
    else buff

-- Steps 3 to 5: the control header in network order, the descriptors, and the inner footer.
unfoldable pub packet_bytes :
    Config
    → (tunnel_flag : Bool) → (vfm_mac conx_mac bridge_mac : Mac) → TunnelHdr
    → CtrlHdr
    → List ℕ
    → Outcome (List ℕ)
unfolding packet_headers ctrl_to_network bounded
packet_bytes cfg tunnel_flag vfm_mac conx_mac bridge_mac t c desc_buff = do
  desc ← slice 0 (desc_length c) desc_buff
  let headers = packet_headers cfg tunnel_flag vfm_mac conx_mac bridge_mac t c
  bounded (
      headers ++ (ctrl_image (ctrl_to_network c) ++ (desc ++ (if tunnel_flag then le32 0 else []))))

-- Any error of `send_buffer` becomes `VPS_ERROR_SEND_PK`.
abbrev pub as_send_pk : Option VpsError × World → Option VpsError × World
as_send_pk (none, w) = (none, w)
as_send_pk (some _, w) = (some send_pk, w)

-- The world after a send whose status is dropped.
abbrev pub sent : Outcome (Option VpsError × World) → Outcome World
sent o = o >>= λ (_, w). ok w

unfoldable pub send_packet :
    Config
    → Env
    → World
    → (tunnel_flag : Bool) → (vfm_mac conx_mac bridge_mac : Mac) → TunnelHdr
    → CtrlHdr
    → List ℕ
    → Outcome (Option VpsError × World)
send_packet cfg env w tunnel_flag vfm_mac conx_mac bridge_mac t c desc_buff =
    packet_bytes cfg tunnel_flag vfm_mac conx_mac bridge_mac t c desc_buff >>= λ frame.
    ok (as_send_pk (send_buffer env w frame))

unfoldable pub fc_packet_bytes :
    Config → (vfm_mac : Mac) → TunnelHdr → List ℕ → ℕ → Outcome (List ℕ)
unfolding fill_ether_hdr fill_tunnel_hdr bounded
fc_packet_bytes cfg vfm_mac t desc_buff desc_len = do
  let buff = fill_ether_hdr [] cfg.g_bridge_mac vfm_mac 0
  let buff = fill_tunnel_hdr buff (record t { length = (tunnel_hdr_len + desc_len) / dword % 256 })
  desc ← slice 0 desc_len desc_buff
  bounded (buff ++ desc)

unfoldable pub send_fc_packet :
    Config
    → Env
    → World
    → (vfm_mac bridge_mac : Mac) → TunnelHdr
    → List ℕ
    → ℕ
    → Outcome (Option VpsError × World)
send_fc_packet cfg env w vfm_mac bridge_mac t desc_buff desc_len =
    fc_packet_bytes cfg vfm_mac t desc_buff desc_len >>= λ frame.
    ok (as_send_pk (send_buffer env w frame))

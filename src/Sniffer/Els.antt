-- ===== src/Sniffer/Els.antt =====
-- `process_fc_els_res` of src/vps/vfm/sniffer.c: an FC frame for a host, wrapped into FCoE again.
use vfm.Base.{
  ℕ, ◌+◌, ◌-◌, ◌/◌, ◌%◌, ◌^◌, ◌≤◌, ◌<◌, ◌≡◌, refl, inl, inr, Bool-cases, List, [], ◌∷◌, ◌++◌, arith,
  length, drop, sub32, drop_past, length-drop, length-append, take_all, IsWord32, swap16, swap32,
  swap16-swap16, swap32-swap32, swap16-IsWord16, swap32-IsWord32, of_le16-le16, of_le32-le32, le32,
  if◌then◌else◌, ◌==◌,
}
use vfm.Outcome.{ok}
use vfm.Ether.{Mac, mac}
use vfm.Fip.{FcHdr, TunnelHdr, dword, fc_image}
use vfm.Fip.Memory.{slice-ok}
use vfm.Fip.Read.{read_fc_hdr, fc_to_host}
use vfm.World.{FcMap, fc_map, Config, Env, World}
use vfm.Sender.Fc.{fc_frame, after_send, send_fc_packet-sent}
use vfm.Sender.Frame.{long_enough}
use vfm.Sniffer.{process_fc_els_res, fcoe_frame, fcoe_header, fc_to_network}
use vfm.Sniffer.Exchange.{FcFits}

-- the size of the FCoE header in front of the FC frame, and of what follows it
abbrev pub front : Config → ℕ
front cfg = if cfg.g_fcoe_t11 == 1 then 28 else 16

abbrev pub tail : Config → ℕ
tail cfg = if cfg.g_fcoe_t11 == 1 then 8 else 5

length-header :
    (cfg : Config) (h : FcHdr) (n : ℕ) (f : FcMap) (m : Mac)
    → cfg.g_fc_map ≡ f
    → cfg.g_bridge_mac ≡ m
    → length (fcoe_header cfg h n) ≡ front cfg
unfolding fcoe_header
length-header cfg h n (fc_map _ _ _) (mac _ _ _ _ _ _) e e' =
    elim (Bool-cases (cfg.g_fcoe_t11 == 1)) [ inl y ↦ rw (e, e', y) | inr y ↦ rw (e, e', y) ]

-- What follows the FC frame: its CRC, EOF and padding.
abbrev pub trailer : Config → Env → FcHdr → List ℕ → List ℕ
trailer cfg env h payload =
    le32 (2 ^ 32 - 1 - env.ether_crc32_le (fc_image (fc_to_network h) ++ payload))
    ++ (if cfg.g_fcoe_t11 == 1 then 0x42 ∷ 0 ∷ 0 ∷ 0 ∷ [] else 0x42 ∷ [])

length-trailer :
    (cfg : Config) (env : Env) (h : FcHdr) (payload : List ℕ)
    → length (trailer cfg env h payload) ≡ tail cfg
length-trailer cfg env h payload = elim (Bool-cases (cfg.g_fcoe_t11 == 1)) [
  | inl y ↦ rw y
  | inr y ↦ rw y
]

-- The frame, with the FCoE header as `hdr`.
abbrev pub parts : Config → Env → FcHdr → List ℕ → (hdr : List ℕ) → List ℕ
parts cfg env h payload hdr =
    hdr ++ (fc_image (fc_to_network h) ++ (payload ++ trailer cfg env h payload))

frame_parts :
    (cfg : Config) (env : Env) (h : FcHdr) (payload : List ℕ)
    → fcoe_frame cfg env h payload
      ≡ parts cfg env h payload (fcoe_header cfg h (length (fc_image (fc_to_network h) ++ payload)))
unfolding fcoe_frame
frame_parts cfg env h payload = refl

length-frame :
    (cfg : Config) (env : Env) (h : FcHdr) (payload : List ℕ)
    → length (fcoe_frame cfg env h payload) ≡ front cfg + tail cfg + 24 + length payload
length-frame cfg env h payload =
    let hdr : List ℕ = fcoe_header cfg h (length (fc_image (fc_to_network h) ++ payload)) in
    rw (frame_parts cfg env h payload) (
      omega (
        arith,
        length-append hdr (fc_image (fc_to_network h) ++ (payload ++ trailer cfg env h payload)),
        length-append payload (trailer cfg env h payload),
        length-trailer cfg env h payload,
        length-header cfg h (length (fc_image (fc_to_network h) ++ payload)) cfg.g_fc_map
            cfg.g_bridge_mac refl refl,
      ))

-- The host reads the header's fields as the VFM holds them, all but the parameter.
frame_header :
    (cfg : Config) (env : Env) (h : FcHdr) (payload : List ℕ)
    → FcFits h
    → h.src_id < 2 ^ 24
    → IsWord32 (length (fcoe_frame cfg env h payload))
    → let f : List ℕ = fcoe_frame cfg env h payload in
      read_fc_hdr f (length f) (front cfg)
      ≡ ok (record h { parameter = swap32 h.parameter }, front cfg + 24)
unfolding read_fc_hdr fc_to_network fc_to_host
frame_header cfg env h payload fit src small =
    let hdr : List ℕ = fcoe_header cfg h (length (fc_image (fc_to_network h) ++ payload)) in
    let size =
      length-header cfg h (length (fc_image (fc_to_network h) ++ payload)) cfg.g_fc_map
        cfg.g_bridge_mac refl refl in
    let short : h.src_id % 2 ^ 24 ≡ h.src_id = omega arith in
    rw (
      long_enough (length (fcoe_frame cfg env h payload)) (front cfg) 24
          (omega (arith, length-frame cfg env h payload)) small,
      frame_parts cfg env h payload,
      drop_past (front cfg) 0 hdr
          (fc_image (fc_to_network h) ++ (payload ++ trailer cfg env h payload))
          (omega (arith, size)),
      of_le32-le32 (swap32 h.rt_ctrl_dest_id) (swap32-IsWord32 h.rt_ctrl_dest_id),
      of_le32-le32 (swap32 h.src_id) (swap32-IsWord32 h.src_id),
      of_le32-le32 (swap32 h.type_frame_ctrl) (swap32-IsWord32 h.type_frame_ctrl),
      of_le16-le16 (swap16 h.seq_count) (swap16-IsWord16 h.seq_count),
      of_le16-le16 (swap16 h.ox_id) (swap16-IsWord16 h.ox_id),
      of_le16-le16 (swap16 h.res_id) (swap16-IsWord16 h.res_id),
      of_le32-le32 h.parameter fit.parameter,
      swap32-swap32 h.rt_ctrl_dest_id fit.rt_ctrl_dest_id,
      swap32-swap32 h.src_id fit.src_id,
      swap32-swap32 h.type_frame_ctrl fit.type_frame_ctrl,
      swap16-swap16 h.seq_count fit.seq_count,
      swap16-swap16 h.ox_id fit.ox_id,
      swap16-swap16 h.res_id fit.res_id,
      short,
    )

-- Behind the FC header come the bytes that were received, and the trailer.
frame_payload :
    (cfg : Config) (env : Env) (h : FcHdr) (payload : List ℕ)
    → drop (front cfg + 24) (fcoe_frame cfg env h payload) ≡ payload ++ trailer cfg env h payload
frame_payload cfg env h payload =
    let n : ℕ = length (fc_image (fc_to_network h) ++ payload) in
    let size = length-header cfg h n cfg.g_fc_map cfg.g_bridge_mac refl refl in
    rw (
      frame_parts cfg env h payload,
      drop_past (front cfg + 24) 24 (fcoe_header cfg h n)
          (fc_image (fc_to_network h) ++ (payload ++ trailer cfg env h payload))
          (omega (arith, size)),
    )

-- the tunnel header of a frame to a host
abbrev pub e_cleared : TunnelHdr → (n : ℕ) → TunnelHdr
e_cleared t n = record t { port_num = t.port_num % 128; length = (n + 24) / dword % 256 }

-- An FC frame for a host that fits the buffer once it is wrapped is handed to `sendto` as one
-- frame with the E flag clear; it holds an FCoE header, the FC header, the bytes behind it,
-- and a trailer of 5 or 8 bytes that begins with the inverted CRC. The FC header reads as it was
-- received, but for the parameter, whose bytes are reversed.
pub els_answered :
    (cfg : Config) (env : Env) (w : World) (buff : List ℕ) (pos : ℕ) (t : TunnelHdr) (h : FcHdr)
    → FcFits h
    → h.src_id < 2 ^ 24
    → pos ≤ length buff
    → IsWord32 (length buff)
    → front cfg + tail cfg + 64 + length buff ≤ 1500 + pos
    → let f : List ℕ = fcoe_frame cfg env h (drop pos buff) in
      (process_fc_els_res cfg env w buff (length buff) pos t h
        ≡ ok (
            after_send env w
              (fc_frame cfg.g_bridge_mac cfg.g_local_mac (e_cleared t (length f)) f)))
      × (length f ≡ front cfg + tail cfg + 24 + (length buff - pos))
      × (read_fc_hdr f (length f) (front cfg)
          ≡ ok (record h { parameter = swap32 h.parameter }, front cfg + 24))
      × (drop (front cfg + 24) f ≡ drop pos buff ++ trailer cfg env h (drop pos buff))
unfolding process_fc_els_res
els_answered cfg env w buff pos t h fit src le word small =
    let f : List ℕ = fcoe_frame cfg env h (drop pos buff) in
    let size : length f ≡ front cfg + tail cfg + 24 + (length buff - pos) =
      omega (arith, length-frame cfg env h (drop pos buff), length-drop pos buff) in
    let n : sub32 (length buff) pos ≡ length buff - pos = omega arith in
    (
      rw (
        n,
        slice-ok pos (length buff - pos) buff (omega arith),
        take_all (length buff - pos) (drop pos buff) (omega (arith, length-drop pos buff)),
        send_fc_packet-sent cfg env w cfg.g_local_mac cfg.g_bridge_mac (e_cleared t (length f)) f
            (length f) (omega arith) (omega (arith, size)),
        take_all (length f) f (omega arith),
      ),
      size,
      frame_header cfg env h (drop pos buff) fit src (omega (arith, size)),
      frame_payload cfg env h (drop pos buff),
    )

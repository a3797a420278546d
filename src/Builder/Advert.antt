-- ===== src/Builder/Advert.antt =====
-- Gateway advertisements: the descriptors they carry, and the frames that the hosts get.
use vfm.Base.{
  ℕ, ◌+◌, ◌<◌, ◌≡◌, refl, ap, ◌∙◌, inl, inr, true, List, [], ◌∷◌, ◌++◌, arith, take, drop, length,
  IsWord16, Bool-cases, if◌then◌else◌, ◌==◌, le32, swap32,
}
use vfm.Outcome.{ok}
use vfm.Ether.{Mac, mac, mac_bytes, Name, name, name_bytes, is_multicast_ether_addr}
use vfm.Fip.{CtrlHdr}
use vfm.Fip.Read.{read_eth_hdr, read_ctrl_hdr}
use vfm.World.{FcMap, fc_map, Config, Env, World}
use vfm.Sender.{send_packet, sent}
use vfm.Sender.Fc.{after_send, send_packet-sent}
use vfm.Sender.Frame.{fip_header, FieldsFit}
use vfm.Sender.ReadBack.{packet_reads_back}
use vfm.Builder.{
  prepare_fcoe_vhba_advertisement, default_tunnel, name_vender, vpsystem, fc_map_bytes,
}
use vfm.Builder.Create.{advertise}

-- The 48 bytes of descriptors: priority 45, the bridge's inner address, the node name, FC map and
-- port name, and the keep-alive period of 50000 in network order.
abbrev pub advert : Mac → Name → FcMap → Name → List ℕ
advert m wwnn f wwpn =
    1 ∷ 1 ∷ 0 ∷ 45 ∷ 2 ∷ 2 ∷ mac_bytes m
    ++ (4 ∷ 3 ∷ 0 ∷ 0 ∷ name_bytes wwnn
        ++ (5 ∷ 4 ∷ 0 ∷ 0 ∷ 0 ∷ fc_map_bytes f
            ++ (name_bytes wwpn ++ (12 ∷ 2 ∷ 0 ∷ 0 ∷ 0 ∷ 0 ∷ 0xC3 ∷ 0x50 ∷ []))))

abbrev pub advert_of : Config → List ℕ
advert_of cfg = advert cfg.g_bridge_enc_mac cfg.g_wwnn cfg.g_fc_map cfg.g_wwpn

-- The control header of an advertisement to an address.
abbrev pub advert_ctrl : Mac → (unicast_flags : ℕ) → CtrlHdr
advert_ctrl m u = record {
  opcode = 1;
  reserved = 0;
  subcode = 2;
  desc_list_length = 12;
  flags = if is_multicast_ether_addr m == 0 then 0xC001 + u else 0xC001;
}

descriptors :
    (m : Mac) (wwnn : Name) (f : FcMap) (wwpn : Name) (cfg : Config) (padding : ℕ × ℕ) (c : CtrlHdr)
    → c.desc_list_length ≡ 12
    → cfg.g_bridge_enc_mac ≡ m
    → cfg.g_wwnn ≡ wwnn
    → cfg.g_fc_map ≡ f
    → cfg.g_wwpn ≡ wwpn
    → prepare_fcoe_vhba_advertisement cfg padding c ≡ ok (advert m wwnn f wwpn)
unfolding prepare_fcoe_vhba_advertisement swap32
descriptors (mac _ _ _ _ _ _) (name _ _ _ _ _ _ _ _) (fc_map _ _ _) (name _ _ _ _ _ _ _ _) cfg
      padding c e0 e1 e2 e3 e4 =
    rw (e0, e1, e2, e3, e4)

length-advert :
    (m : Mac) (wwnn : Name) (f : FcMap) (wwpn : Name) → length (advert m wwnn f wwpn) ≡ 48
length-advert (mac _ _ _ _ _ _) (name _ _ _ _ _ _ _ _) (fc_map _ _ _) (name _ _ _ _ _ _ _ _) = refl

take-advert :
    (m : Mac) (wwnn : Name) (f : FcMap) (wwpn : Name)
    → take 48 (advert m wwnn f wwpn) ≡ advert m wwnn f wwpn
take-advert (mac _ _ _ _ _ _) (name _ _ _ _ _ _ _ _) (fc_map _ _ _) (name _ _ _ _ _ _ _ _) = refl

advert_flags : (m : Mac) (u : ℕ) → u < 1000 → IsWord16 (advert_ctrl m u).flags
advert_flags m u h = elim (Bool-cases (is_multicast_ether_addr m == 0)) [
  | inl e ↦ rw e (omega arith)
  | inr e ↦ rw e (omega arith)
]

advert-FieldsFit :
    (m : Mac) (u : ℕ) → u < 1000 → FieldsFit (default_tunnel vpsystem 0) (advert_ctrl m u)
unfolding default_tunnel name_vender
advert-FieldsFit m u h = record {
  reserved1 = omega arith;
  reserved2 = omega arith;
  gw_id = omega arith;
  vfm_id = omega arith;
  opcode = omega arith;
  desc_list_length = omega arith;
  flags = advert_flags m u h;
}

-- The memory at the pointer: an address, and the ten bytes that are read behind it.
abbrev pub pointed : Mac → (behind : List ℕ) → (hi lo : ℕ) → List ℕ → List ℕ
pointed m behind hi lo more = mac_bytes m ++ (behind ++ (hi ∷ lo ∷ more))

advertise_bytes :
    (cfg : Config) (env : Env) (w : World) (padding : ℕ × ℕ) (u : ℕ) (m : Mac) (x : Name)
    (hi lo : ℕ) (more : List ℕ)
    → advertise cfg env w padding u (pointed m (name_bytes x) hi lo more)
      ≡ sent (
          send_packet cfg env w true cfg.g_local_mac m cfg.g_bridge_mac
            (default_tunnel vpsystem 0)
            (advert_ctrl m u)
            (advert_of cfg))
unfolding advertise
advertise_bytes cfg env w padding u (mac a b c d e f) (name _ _ _ _ _ _ _ _) hi lo more = rw (
    descriptors cfg.g_bridge_enc_mac cfg.g_wwnn cfg.g_fc_map cfg.g_wwpn cfg padding
      (advert_ctrl (mac a b c d e f) u) refl refl refl refl refl)

-- A gateway advertisement for an address goes out as a frame that the host reads as coming from
-- the bridge, with a control header for an advertisement of 12 dwords and the bridge's descriptors;
-- the unicast flags are set only if the address is no multicast address. Ten bytes behind the
-- address are read as well.
pub advertised :
    (cfg : Config) (env : Env) (w : World) (padding : ℕ × ℕ) (u : ℕ) (m : Mac) (x : Name)
    (hi lo : ℕ) (more : List ℕ)
    → u < 1000
    → (f : List ℕ) × (advertise cfg env w padding u (pointed m (name_bytes x) hi lo more)
        ≡ ok (after_send env w f))
      × (read_eth_hdr f (length f) 40 ≡ ok (fip_header m cfg.g_bridge_enc_mac, 56))
      × (read_ctrl_hdr f (length f) 56 ≡ ok (advert_ctrl m u, 64))
      × (drop 64 f ≡ advert_of cfg ++ le32 0)
advertised cfg env w padding u m x hi lo more h =
    let c = advert_ctrl m u in
    let t = default_tunnel vpsystem 0 in
    let desc : List ℕ = advert_of cfg in
    let size = length-advert cfg.g_bridge_enc_mac cfg.g_wwnn cfg.g_fc_map cfg.g_wwpn in
    let (f, made, _, _, _, inner, ctrl, rest) =
      packet_reads_back cfg cfg.g_local_mac m cfg.g_bridge_mac t c desc (advert-FieldsFit m u h)
        (omega (arith, size)) (omega arith) in
    (
      f,
      advertise_bytes cfg env w padding u m x hi lo more
          ∙ send_packet-sent cfg env w cfg.g_local_mac m cfg.g_bridge_mac t c desc f made,
      inner,
      ctrl,
      rest
          ∙ ap (λ d. d ++ le32 0)
              (take-advert cfg.g_bridge_enc_mac cfg.g_wwnn cfg.g_fc_map cfg.g_wwpn),
    )

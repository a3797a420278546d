-- ===== src/Tests/Starting.antt =====
-- The theorem on the VFM's start at a concrete file and interface.
use vfm.Base.{ℕ, ◌≡◌, refl, true, some, List, [], ◌∷◌, ◌++◌, length, drop, le32, replicate}
use vfm.Outcome.{ok}
use vfm.Ether.{Mac, mac, name}
use vfm.Fip.{CtrlHdr}
use vfm.Fip.Read.{read_eth_hdr}
use vfm.World.{fc_map, Config, World}
use vfm.Config.File.{Settings, read_config, is_key, trimmed, has_char}
use vfm.Sender.Fc.{after_send}
use vfm.Sender.Frame.{fip_header}
use vfm.Builder.Advert.{advert_of}
use vfm.Sniffer.Own.{after_own}
use vfm.Sniffer.Dispatch.{fcoe_multicast}
use vfm.Start.{
  Interface, Local, start_processor, cli_listener, start_sniffer, running, get_inf_property,
  globals, table_cleared, start,
}
use vfm.Start.Login.{start_logs_in}
use vfm.Tests.Data.{env, st, w}
use vfm.Tests.Addresses.{settings, atoi}

abbrev zero_mac : Mac
zero_mac = mac 0 0 0 0 0 0

-- an interface with an index above a byte
abbrev net : Interface
net = record {
  opens = true;
  hwaddr = some (mac 0 2 201 9 9 9);
  ifindex = some 258;
  ifmtu = some 1500;
}

abbrev before : Local
before = record { g_local_mac = zero_mac; g_if_index = 0; g_if_mtu = 0 }

abbrev found : Local
found = record { g_local_mac = mac 0 2 201 9 9 9; g_if_index = 2; g_if_mtu = 1500 }

-- a file of one line, "fcoe_t11=0"
abbrev file : List (List ℕ)
file = (b'f' ∷ b'c' ∷ b'o' ∷ b'e' ∷ b'_' ∷ b't' ∷ b'1' ∷ b'1' ∷ b'=' ∷ b'0' ∷ 10 ∷ []) ∷ []

abbrev set : Settings
set = record settings { g_fcoe_t11 = 0 }

abbrev cfg : Config
cfg = record {
  g_local_mac = mac 0 2 201 9 9 9;
  g_bridge_mac = zero_mac;
  g_bridge_enc_mac = zero_mac;
  g_fc_map = fc_map 14 252 0;
  g_wwnn = name 0 0 0 0 0 0 0 0;
  g_wwpn = name 0 0 0 0 0 0 0 0;
  g_fcoe_t11 = 0;
}

abbrev c : CtrlHdr
c = record { opcode = 0; reserved = 0; subcode = 0; desc_list_length = 0; flags = 0 }

start_logs_in_example :
    let w' : World = after_own cfg env (table_cleared w) in
    (f : List ℕ) × (start atoi (some file) net (fc_map 14 252 0) env st c settings before w
      ≡ ok (
          running
            (start_processor ∷ start_processor ∷ cli_listener ∷ start_sniffer ∷ [])
            (after_send env w' f)))
    × (read_eth_hdr f (length f) 40 ≡ ok (fip_header fcoe_multicast cfg.g_bridge_enc_mac, 56))
    × (drop 64 f ≡ advert_of cfg ++ le32 0)
unfolding read_config get_inf_property globals is_key trimmed has_char
start_logs_in_example =
    start_logs_in atoi (some file) net (fc_map 14 252 0) env st c settings set before found w cfg
      (name 0 0 0 0 0 0 0 0) 0 0 (replicate 6 0) refl refl refl refl refl refl

-- ===== src/Start.antt =====
-- src/vps/vfm/server.c, and `get_inf_property` of src/vps/vfm/net_util.c: how the VFM starts, up to the
-- loop in which its main thread sleeps.
pub mod Login
use vfm.Base.{
  ℕ, ◌+◌, ◌*◌, ◌/◌, ◌%◌, Bool, true, false, ◌&&◌, Option, none, some, List, [], ◌∷◌, length,
  replicate, ltb, ◌==◌, if◌then◌else◌,
}
use vfm.Outcome.{Outcome, ok, fault, ◌>>=◌, code, sock_open, get_mac, get_ifindex, get_mtu}
use vfm.Ether.{Mac}
use vfm.Fip.{CtrlHdr, take_mac, take_name}
use vfm.ReqMap.{null, req_entry_map_len}
use vfm.World.{FcMap, Config, Env, World}
use vfm.Db.{c_string}
use vfm.Config.File.{Settings, read_config}
use vfm.Builder.{create_vfm_flogi}
use vfm.Sniffer.{Stack, send_gw_ad}

-- What the system answers for the interface: whether there is a socket, and the three `ioctl`s.
pub record Interface : Type 0 where
  pub opens : Bool
  pub hwaddr : Option Mac
  pub ifindex : Option ℕ
  pub ifmtu : Option ℕ

-- `g_local_mac`, `g_if_index` and `g_if_mtu`
pub record Local : Type 0 where
  pub g_local_mac : Mac
  pub g_if_index : ℕ
  pub g_if_mtu : ℕ

-- Two bytes are written to the lowest of the global's four.
unfoldable pub read_mtu : Option ℕ → Local → ℕ × Local
read_mtu none l = (code get_mtu, l)
read_mtu (some mtu) l = (0, record l { g_if_mtu = l.g_if_mtu / 65536 * 65536 + mtu % 65536 })

-- The index is cut to a byte, which is written to the lowest of the global's four.
unfoldable pub read_ifindex : Interface → Option ℕ → Local → ℕ × Local
unfolding read_mtu
read_ifindex net none l = (code get_ifindex, l)
read_ifindex net (some index) l =
    read_mtu net.ifmtu (record l { g_if_index = l.g_if_index / 256 * 256 + index % 256 })

unfoldable pub read_hwaddr : Interface → Option Mac → Local → ℕ × Local
unfolding read_ifindex
read_hwaddr net none l = (code get_mac, l)
read_hwaddr net (some address) l = read_ifindex net net.ifindex (record l { g_local_mac = address })

-- The code, with what is set by then. The name goes to an array of 16 characters.
unfoldable pub get_inf_property : Interface → (if_name : List ℕ) → Local → Outcome (ℕ × Local)
unfolding read_hwaddr c_string
get_inf_property net if_name l =
    if net.opens
    then (c_string if_name >>= λ name.
        if ltb 15 (length name) then fault else ok (read_hwaddr net net.hwaddr l))
    else ok (code sock_open, l)

unfoldable pub initialization : Interface → Settings → Local → Outcome (ℕ × Local)
unfolding get_inf_property
initialization net s l =
    if s.g_vfm_protocol == 1 then get_inf_property net s.g_if_name l else ok (0, l)

-- the globals that the packet path reads; `g_fc_map` is never assigned
unfoldable pub globals : FcMap → Settings → Local → Outcome Config
globals map s l = do
  (bridge, _) ← take_mac s.g_bridge_mac
  (enc, _) ← take_mac s.g_bridge_enc_mac
  (wwnn, _) ← take_name s.g_wwnn
  (wwpn, _) ← take_name s.g_wwpn
  ok (record {
    g_local_mac = l.g_local_mac;
    g_bridge_mac = bridge;
    g_bridge_enc_mac = enc;
    g_fc_map = map;
    g_wwnn = wwnn;
    g_wwpn = wwpn;
    g_fcoe_t11 = s.g_fcoe_t11;
  })

pub data Thread : Type 0 where
  start_processor cli_listener start_sniffer : Thread

-- How far `main` gets: `abort` while the file is read; its end, with the status that it returns; or
-- the threads, in the order in which they are made, and what was sent.
pub data Progress : Type 0 where
  aborted : Progress
  returned : ℕ → Progress
  running : List Thread → World → Progress

-- The threads, and in the remote mode over Ethernet the sniffer, the VFM's login and its
-- advertisement, whose errors are not looked at.
unfoldable pub run_threads :
    FcMap → Env → Stack → CtrlHdr → Settings → World → Local → Outcome Progress
unfolding globals create_vfm_flogi send_gw_ad
run_threads map env st c s w l =
    if (s.g_vfm_remote == 1) && (s.g_vfm_protocol == 1)
    then (globals map s l >>= λ cfg. create_vfm_flogi cfg env w >>= λ w₁.
        send_gw_ad cfg env st w₁ c >>= λ w₂.
        ok (running (start_processor ∷ start_processor ∷ cli_listener ∷ start_sniffer ∷ []) w₂))
    else ok (running (start_processor ∷ start_processor ∷ cli_listener ∷ []) w)

-- A failed initialization ends `main`, whose result stays 0.
unfoldable pub initialized :
    FcMap → Env → Stack → CtrlHdr → Settings → World → ℕ × Local → Outcome Progress
unfolding run_threads
initialized map env st c s w (rc, l) =
    if rc == 0 then run_threads map env st c s w l else ok (returned 0)

-- `pre_initialization` clears `g_req_map`; `vfm_oxid_index` stays.
abbrev pub table_cleared : World → World
table_cleared w = record w {
  req_map = record {
    slots = replicate req_entry_map_len null;
    vfm_oxid_index = w.req_map.vfm_oxid_index;
  };
}

-- `main`: the file is read, whatever comes of it but `abort`, and the table is cleared.
unfoldable pub start :
    (atoi : List ℕ → ℕ) (file : Option (List (List ℕ)))
    → Interface
    → FcMap
    → Env
    → Stack
    → CtrlHdr
    → Settings
    → Local
    → World
    → Outcome Progress
unfolding read_config initialization initialized
start atoi file net map env st c s l w = read_config atoi file s >>= λ r. elim r [
  | none ↦ ok aborted
  | some set ↦ initialization net set l >>= initialized map env st c set (table_cleared w)
]

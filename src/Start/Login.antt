-- ===== src/Start/Login.antt =====
-- What the start of src/vps/vfm/server.c sends.
use vfm.Base.{ℕ, ◌≡◌, Option, some, List, [], ◌∷◌, ◌++◌, length, le32, drop}
use vfm.Outcome.{ok}
use vfm.Ether.{Name, name_bytes}
use vfm.Fip.{CtrlHdr}
use vfm.Fip.Read.{read_eth_hdr}
use vfm.World.{FcMap, Config, Env, World}
use vfm.Config.File.{Settings, read_config}
use vfm.Sender.Fc.{after_send}
use vfm.Sender.Frame.{fip_header}
use vfm.Builder.Advert.{advert_of}
use vfm.Sniffer.{Stack}
use vfm.Sniffer.Own.{after_own, own_sent}
use vfm.Sniffer.Dispatch.{fcoe_multicast, gw_ad_sent}
use vfm.Start.{
  Interface, Local, start_processor, cli_listener, start_sniffer, running, get_inf_property,
  initialization, initialized, globals, run_threads, table_cleared, start,
}

-- In the remote mode over Ethernet, where the file can be read, the settings hold whole addresses,
-- and the interface's properties can be read, the VFM starts two processors, the listener and the
-- sniffer, and sends its login to the bridge and then its advertisement to the FCoE multicast
-- address, whatever the exchange table held before. The multicast address is copied out of an
-- object of 6 bytes as if it had 16; this holds where there are 10 bytes to be read behind it.
pub start_logs_in :
    (atoi : List ℕ → ℕ) (file : Option (List (List ℕ))) (net : Interface) (map : FcMap) (env : Env)
    (st : Stack) (c : CtrlHdr) (s set : Settings) (l found : Local) (w : World) (cfg : Config)
    (x : Name) (hi lo : ℕ) (more : List ℕ)
    → read_config atoi file s ≡ ok (some set)
    → set.g_vfm_remote ≡ 1
    → set.g_vfm_protocol ≡ 1
    → get_inf_property net set.g_if_name l ≡ ok (0, found)
    → globals map set found ≡ ok cfg
    → st.beyond_multicast ≡ name_bytes x ++ hi ∷ lo ∷ more
    → let w' : World = after_own cfg env (table_cleared w) in
      (f : List ℕ) × (start atoi file net map env st c s l w
        ≡ ok (
            running
              (start_processor ∷ start_processor ∷ cli_listener ∷ start_sniffer ∷ [])
              (after_send env w' f)))
      × (read_eth_hdr f (length f) 40 ≡ ok (fip_header fcoe_multicast cfg.g_bridge_enc_mac, 56))
      × (drop 64 f ≡ advert_of cfg ++ le32 0)
unfolding start initialization initialized run_threads
start_logs_in atoi file net map env st c s set l found w cfg x hi lo more read remote protocol
      property made beyond =
    let w₀ : World = table_cleared w in
    let w' : World = after_own cfg env w₀ in
    let (f, sent, eth, _, rest) = gw_ad_sent cfg env st w' c x hi lo more beyond in
    (f, rw (read, protocol, property, remote, made, own_sent cfg env w₀, sent), eth, rest)

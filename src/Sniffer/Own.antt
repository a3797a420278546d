-- ===== src/Sniffer/Own.antt =====
-- The VFM's own login: `create_vfm_flogi` of src/vps/vfm/vfm_create_pk.c, and the bridge's answer in
-- `process_fc_response` of src/vps/vfm/sniffer.c.
use vfm.Base.{
  ℕ, ◌%◌, ◌^◌, ◌≡◌, refl, sym, subst, ◌∙◌, some, List, ◌++◌, arith, length, IsWord32, swap16,
  swap32, take_all, inl, inr, Bool-cases, ==_iff, ◌==◌, if◌then◌else◌,
}
use vfm.Outcome.{ok}
use vfm.Fip.{FcHdr, TunnelHdr, fc_image}
use vfm.Fip.Read.{fc_to_host}
use vfm.Fip.Memory.{patch}
use vfm.Ether.{Name, name}
use vfm.ReqMap.{add_entry_to_map, get_entry_from_map}
use vfm.ReqMap.Slots.{IsValid}
use vfm.ReqMap.Add.{add-IsValid}
use vfm.ReqMap.Remove.{without, remove-Frees}
use vfm.World.{Config, Env, World}
use vfm.Sender.Fc.{fc_frame, after_send, send_fc_packet-sent}
use vfm.Builder.{
  create_vfm_flogi, vfm_flogi_entry, flogi_payload, prepare_fc_hdr, default_tunnel, vpsystem,
  mellanox, set_e,
}
use vfm.Sniffer.{process_fc_response, own_login}
use vfm.Sniffer.Exchange.{FcFits, response, IsAnswer, answer_looked_up, sent-req_map}
use vfm.Sniffer.Login.{found_added}
use vfm.Sniffer.Reject.{reject_frame, request_rejected}

-- The FC frame of the VFM's FLOGI under a key.
abbrev pub own_flogi : Config → (key : ℕ) → List ℕ
own_flogi cfg k = fc_image (record prepare_fc_hdr { ox_id = swap16 k }) ++ flogi_payload cfg

length-flogi_payload :
    (cfg : Config) (p n : Name) → cfg.g_wwpn ≡ p → cfg.g_wwnn ≡ n → length (flogi_payload cfg) ≡ 116
unfolding flogi_payload patch
length-flogi_payload cfg (name _ _ _ _ _ _ _ _) (name _ _ _ _ _ _ _ _) e e' = rw (e, e')

-- the world after the VFM's FLOGI
abbrev pub after_own : Config → Env → World → World
after_own cfg env w =
    let added = add_entry_to_map w.req_map (vfm_flogi_entry cfg) in
    after_send env (record w { req_map = added.1 })
      (fc_frame cfg.g_bridge_mac cfg.g_local_mac (default_tunnel vpsystem set_e)
        (own_flogi cfg added.0))

pub own_sent :
    (cfg : Config) (env : Env) (w : World) → create_vfm_flogi cfg env w ≡ ok (after_own cfg env w)
unfolding create_vfm_flogi
own_sent cfg env w =
    let added = add_entry_to_map w.req_map (vfm_flogi_entry cfg) in
    let p : List ℕ = own_flogi cfg added.0 in
    let size = length-flogi_payload cfg cfg.g_wwpn cfg.g_wwnn refl refl in
    rw (
      send_fc_packet-sent cfg env (record w { req_map = added.1 }) cfg.g_local_mac cfg.g_bridge_mac
          (default_tunnel vpsystem set_e) p 140 (omega (arith, size)) (omega arith),
      take_all 116 (flogi_payload cfg) (omega (arith, size)),
    )

-- an answer that is addressed to another address than the VFM has
answered_elsewhere :
    (cfg : Config) (env : Env) (w : World) (pre : List ℕ) (raw : FcHdr) (ls : ℕ) (body : List ℕ)
    (t : TunnelHdr)
    → IsValid w.req_map
    → IsAnswer (after_own cfg env w) raw
    → swap16 raw.ox_id ≡ (add_entry_to_map w.req_map (vfm_flogi_entry cfg)).0
    → IsWord32 (length (response pre raw ls body))
    → let w' = after_own cfg env w in
      let buff : List ℕ = response pre raw ls body in
      process_fc_response cfg env w' buff (length buff) (length pre) t ≡ (
        if ls == 1
        then ok (record w' { exited = some 1 })
        else ok (record w' {
          g_gw_src_id = swap32 raw.rt_ctrl_dest_id % 2 ^ 24;
          req_map = without w'.req_map (swap16 raw.ox_id);
        }))
unfolding own_login vfm_flogi_entry fc_to_host
answered_elsewhere cfg env w pre raw ls body t v is key small =
    let e = vfm_flogi_entry cfg in
    let added = add_entry_to_map w.req_map e in
    let k = swap16 raw.ox_id in
    let w' = after_own cfg env w in
    let same =
      sent-req_map env (record w { req_map = added.1 })
        (fc_frame cfg.g_bridge_mac cfg.g_local_mac (default_tunnel vpsystem set_e)
          (own_flogi cfg added.0)) in
    let valid : IsValid w'.req_map = subst IsValid (sym same) (add-IsValid w.req_map e v).2 in
    let found : get_entry_from_map w'.req_map k ≡ ok (some e) =
      rw (same, key) (found_added w e v) in
    let gone = (remove-Frees w'.req_map k k e e valid found).0 in
    answer_looked_up cfg env w' pre raw ls body t is small ∙ rw (found, gone)

-- From a well-formed table, the VFM's FLOGI is sent under a key. A frame of the fabric's login server
-- that carries the key and is addressed to the address that the VFM has already is answered by a
-- reject frame, also where it begins with a reject itself. Otherwise one that begins with a reject
-- ends the process with status 1, and any other gives the VFM its address and frees the key. The
-- frame's fields and size fit their C types.
pub own_login_answered :
    (cfg : Config) (env : Env) (w : World) (pre : List ℕ) (raw : FcHdr) (ls : ℕ) (body : List ℕ)
    (t : TunnelHdr)
    → IsValid w.req_map
    → FcFits raw
    → swap32 raw.src_id % 2 ^ 24 ≡ 0x00FFFFFE
    → swap16 raw.ox_id ≡ (add_entry_to_map w.req_map (vfm_flogi_entry cfg)).0
    → IsWord32 (length (response pre raw ls body))
    → let w' = after_own cfg env w in
      let buff : List ℕ = response pre raw ls body in
      let address : ℕ = swap32 raw.rt_ctrl_dest_id % 2 ^ 24 in
      (create_vfm_flogi cfg env w ≡ ok w')
      × (process_fc_response cfg env w' buff (length buff) (length pre) t ≡ (
          if w'.g_gw_src_id == address
          then ok (
              after_send env w' (
                fc_frame cfg.g_bridge_mac cfg.g_local_mac
                  (default_tunnel mellanox set_e)
                  (reject_frame raw)))
          else if ls == 1
          then ok (record w' { exited = some 1 })
          else ok (record w' {
            g_gw_src_id = address;
            req_map = without w'.req_map (swap16 raw.ox_id);
          })))
own_login_answered cfg env w pre raw ls body t v fit fabric key small =
    let w' = after_own cfg env w in
    let address : ℕ = swap32 raw.rt_ctrl_dest_id % 2 ^ 24 in
    (
      own_sent cfg env w,
      elim (Bool-cases (w'.g_gw_src_id == address)) [
        | inl y ↦
            rw y
              (request_rejected cfg env w' pre raw ls body t fit
                ((==_iff w'.g_gw_src_id address).0 y) small).0
        | inr n ↦ rw n (
            answered_elsewhere cfg env w pre raw ls body t v
              (record {
                fits = fit;
                from_fabric = fabric;
                not_for_vfm = λ same. absurd (cc (n, (==_iff w'.g_gw_src_id address).1 same));
              })
              key small)
      ],
    )

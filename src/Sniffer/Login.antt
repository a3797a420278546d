-- ===== src/Sniffer/Login.antt =====
-- A login from the host's FLOGI to its answer, through src/vps/vfm/vfm_create_pk.c,
-- src/vps/vfm/map_util.c and src/vps/vfm/sniffer.c.
use vfm.Base.{
  ℕ, ◌+◌, ◌*◌, ◌≤◌, ◌≡◌, refl, sym, subst, ◌∙◌, Bool, none, some, List, ◌∷◌, ◌++◌, arith, length,
  drop, IsWord16, IsWord32, swap16, le32, ==_iff,
}
use vfm.Outcome.{ok}
use vfm.Ether.{Mac}
use vfm.Fip.{EthHdr, FcHdr, CtrlHdr, TunnelHdr, dword}
use vfm.Fip.Read.{read_eth_hdr, read_ctrl_hdr, fc_to_host}
use vfm.ReqMap.{Entry, add_entry_to_map, get_entry_from_map}
use vfm.ReqMap.Slots.{IsValid}
use vfm.ReqMap.Add.{add-IsValid, get-add}
use vfm.ReqMap.Remove.{without}
use vfm.World.{Config, Env, World}
use vfm.Sender.Fc.{fc_frame, after_send}
use vfm.Sender.Frame.{fip_header}
use vfm.Builder.{fdisc_ctrl, create_packet_ex, flogi_entry}
use vfm.Builder.Answer.{answer_desc, frame_dwords}
use vfm.Builder.Exchange.{exchange, flogi_desc, flogi_forwarded, fdisc_payload, to_bridge}
use vfm.Sniffer.{process_fc_response}
use vfm.Sniffer.Exchange.{response, IsAnswer, ls_of, answer_relayed, sent-req_map}

-- A key that was just given finds its entry.
pub found_added :
    (w : World) (e : Entry)
    → IsValid w.req_map
    → let added = add_entry_to_map w.req_map e in get_entry_from_map added.1 added.0 ≡ ok (some e)
found_added w e v =
    let k = (add_entry_to_map w.req_map e).0 in get-add w.req_map e k v ∙ rw ((==_iff k k).1 refl)

-- the world after a host's FLOGI was forwarded
abbrev pub forwarded :
    Config → Env → World → EthHdr → TunnelHdr → CtrlHdr → FcHdr → List ℕ → Mac → World
forwarded cfg env w fw t ctrl h body vhba =
    let added = add_entry_to_map w.req_map (exchange fw ctrl h vhba) in
    after_send env (record w { req_map = added.1 })
      (fc_frame cfg.g_bridge_mac cfg.g_local_mac (to_bridge t) (fdisc_payload h added.0 body))

-- From a well-formed table, a host's FLOGI with a payload of 116 bytes is forwarded under a key. When
-- an accept or a reject from the fabric's login server (0xFFFFFE) carries that key, one frame is
-- handed to `sendto` for the host's address, and in it the exchange id is the host's own again.
-- Afterwards the key finds nothing. This holds for an answer that is not addressed to the VFM's own
-- address, and has at least 118 bytes behind its FC header for an accept and 10 for a reject, 2
-- more than a whole payload; the fields and sizes fit their C types.
pub login_round_trip :
    (cfg : Config) (env : Env) (w : World) (fw : EthHdr) (t t' : TunnelHdr) (ctrl : CtrlHdr)
    (a b c d : ℕ) (h : FcHdr) (ls : ℕ) (body : List ℕ) (x y : ℕ) (vhba : Mac) (more : List ℕ)
    (pre : List ℕ) (raw : FcHdr) (reply : List ℕ) (accept : Bool)
    → IsValid w.req_map
    → length body ≡ 115
    → IsWord16 h.ox_id
    → IsAnswer (forwarded cfg env w fw t ctrl h body vhba) raw
    → swap16 raw.ox_id ≡ (add_entry_to_map w.req_map (exchange fw ctrl h vhba)).0
    → frame_dwords accept * dword ≤ length reply + 27
    → IsWord16 (fdisc_ctrl (exchange fw ctrl h vhba) accept).flags
    → IsWord32 (length (response pre raw (ls_of accept) reply))
    → let e = exchange fw ctrl h vhba in
      let w' = forwarded cfg env w fw t ctrl h body vhba in
      let buff : List ℕ = response pre raw (ls_of accept) reply in
      let m = without w'.req_map (swap16 raw.ox_id) in
      (f : List ℕ) × (create_packet_ex cfg env w fw t ctrl
          (flogi_desc a b c d h ls body x y vhba more)
        ≡ ok w')
      × (process_fc_response cfg env w' buff (length buff) (length pre) t'
          ≡ ok (record (after_send env w' f) { req_map = m }))
      × (read_eth_hdr f (length f) 40 ≡ ok (fip_header fw.shost_mac cfg.g_bridge_enc_mac, 56))
      × (read_ctrl_hdr f (length f) 56 ≡ ok (fdisc_ctrl e accept, 64))
      × (drop 64 f ≡ answer_desc cfg e (fc_to_host raw) raw accept (ls_of accept ∷ reply) ++ le32 0)
      × (get_entry_from_map m (swap16 raw.ox_id) ≡ ok none)
unfolding flogi_entry
login_round_trip cfg env w fw t t' ctrl a b c d h ls body x y vhba more pre raw reply accept v e115
      word is key le fit small =
    let e = exchange fw ctrl h vhba in
    let added = add_entry_to_map w.req_map e in
    let k = swap16 raw.ox_id in
    let w' = forwarded cfg env w fw t ctrl h body vhba in
    let same =
      sent-req_map env (record w { req_map = added.1 })
        (fc_frame cfg.g_bridge_mac cfg.g_local_mac (to_bridge t) (fdisc_payload h added.0 body)) in
    let valid : IsValid w'.req_map = subst IsValid (sym same) (add-IsValid w.req_map e v).2 in
    let found : get_entry_from_map w'.req_map k ≡ ok (some e) =
      rw (same, key) (found_added w e v) in
    let (f, done, eth, ctl, rest, answers) =
      answer_relayed cfg env w' pre raw reply t' e accept k is valid found (λ p. ground arith) le
        fit small in
    (
      f,
      flogi_forwarded cfg env w fw t ctrl a b c d h ls body x y vhba more e115 word,
      done,
      eth,
      ctl,
      rest,
      answers ∙ rw ((==_iff k k).1 refl),
    )

-- ===== src/Tests/Logins.antt =====
-- The theorems on logins and on the bridge's answers.
use vfm.Base.{
  ℕ, ◌+◌, ◌%◌, ◌^◌, ◌≡◌, refl, true, false, none, List, [], ◌∷◌, ◌++◌, arith, length, drop,
  replicate, swap16, swap32, le32, if◌then◌else◌, ◌==◌,
}
use vfm.Outcome.{ok}
use vfm.Fip.{FcHdr, fc_image}
use vfm.Fip.Read.{read_fc_hdr, read_eth_hdr, read_ctrl_hdr, fc_to_host}
use vfm.ReqMap.{init, null, live, ReqMap, add_entry_to_map, get_entry_from_map}
use vfm.ReqMap.Slots.{IsValid, init-IsValid}
use vfm.ReqMap.Remove.{without}
use vfm.World.{World}
use vfm.Sender.{send_buffer}
use vfm.Sender.Fc.{fc_frame, after_send}
use vfm.Sender.Frame.{fip_header}
use vfm.Builder.{
  default_tunnel, mellanox, set_e, fdisc_ctrl, prepare_fdisc_res, create_packet_ex,
  create_vfm_flogi, flogi_entry,
}
use vfm.Builder.Answer.{answer_desc, fdisc_answered}
use vfm.Builder.Exchange.{exchange, flogi_desc, flogi_forwarded, fdisc_payload, to_bridge}
use vfm.Sniffer.{process_fc_response}
use vfm.Sniffer.Exchange.{FcFits, IsAnswer, response, ls_of, answer_relayed}
use vfm.Sniffer.Login.{forwarded, login_round_trip}
use vfm.Sniffer.Reject.{reject_frame, reject_read, request_rejected}
use vfm.Sniffer.Own.{after_own, own_login_answered}
use vfm.Tests.Data.{cfg, env, w, t, fw, ctrl, h, e, answer, pre, body, reply, vhba}

answer-FcFits : FcFits answer
answer-FcFits = record {
  rt_ctrl_dest_id = omega arith;
  src_id = omega arith;
  type_frame_ctrl = omega arith;
  seq_count = omega arith;
  ox_id = omega arith;
  res_id = omega arith;
  parameter = omega arith;
}

abbrev single : ReqMap
single = record { slots = null ∷ live e ∷ replicate 1022 null; vfm_oxid_index = 2 }

single-IsValid : IsValid single
single-IsValid = record {
  size = refl;
  index_pos = omega arith;
  index_le = omega arith;
  zeroth = refl;
}

abbrev pending : World
pending = record w { req_map = single }

pending-IsAnswer : IsAnswer pending answer
unfolding swap32
pending-IsAnswer = record { fits = answer-FcFits; from_fabric = refl; not_for_vfm = omega arith }

answer_relayed_example :
    (f : List ℕ) × (process_fc_response cfg env pending
        (response pre answer (ls_of true) reply)
        (length (response pre answer (ls_of true) reply))
        (length pre)
        t
      ≡ ok (record (after_send env pending f) { req_map = without single (swap16 256) }))
    × (read_eth_hdr f (length f) 40 ≡ ok (fip_header e.mac cfg.g_bridge_enc_mac, 56))
    × (read_ctrl_hdr f (length f) 56 ≡ ok (fdisc_ctrl e true, 64))
    × (drop 64 f ≡ answer_desc cfg e (fc_to_host answer) answer true (ls_of true ∷ reply) ++ le32 0)
    × (get_entry_from_map (without single (swap16 256)) 1
        ≡ (if 1 == swap16 256 then ok none else get_entry_from_map single 1))
unfolding swap16 get_entry_from_map fdisc_ctrl
answer_relayed_example =
    answer_relayed cfg env pending pre answer reply t e true 1 pending-IsAnswer single-IsValid refl
      (omega arith) (omega arith) (omega arith) (omega arith)

abbrev stray : FcHdr
stray = record answer { ox_id = 0x0108 }

stray-IsAnswer : IsAnswer pending stray
unfolding swap32
stray-IsAnswer = record {
  fits = record {
    rt_ctrl_dest_id = omega arith;
    src_id = omega arith;
    type_frame_ctrl = omega arith;
    seq_count = omega arith;
    ox_id = omega arith;
    res_id = omega arith;
    parameter = omega arith;
  };
  from_fabric = refl;
  not_for_vfm = omega arith;
}

fdisc_answered_example :
    (f : List ℕ) × (prepare_fdisc_res cfg env w
        (pre ++ (fc_image answer ++ reply))
        (40 + 24)
        e
        (fc_to_host answer)
        false
      ≡ ok (after_send env w f))
    × (read_eth_hdr f (length f) 40 ≡ ok (fip_header e.mac cfg.g_bridge_enc_mac, 56))
    × (read_ctrl_hdr f (length f) 56 ≡ ok (fdisc_ctrl e false, 64))
    × (drop 64 f ≡ answer_desc cfg e (fc_to_host answer) answer false reply ++ le32 0)
unfolding fdisc_ctrl
fdisc_answered_example =
    fdisc_answered cfg env w 40 pre answer reply e (fc_to_host answer) false refl (omega arith)
      (omega arith)

flogi_forwarded_example :
    create_packet_ex cfg env w fw t ctrl (flogi_desc 7 36 0 0 h 4 body 2 2 vhba [])
    ≡ ok (
        after_send env
          (record w { req_map = (add_entry_to_map w.req_map (exchange fw ctrl h vhba)).1 })
          (fc_frame cfg.g_bridge_mac cfg.g_local_mac
            (to_bridge t)
            (fdisc_payload h (add_entry_to_map w.req_map (exchange fw ctrl h vhba)).0 body)))
flogi_forwarded_example =
    flogi_forwarded cfg env w fw t ctrl 7 36 0 0 h 4 body 2 2 vhba [] refl (omega arith)

-- the world after the FLOGI
abbrev w' : World
w' = forwarded cfg env w fw t ctrl h body vhba

w'-IsAnswer : IsAnswer w' answer
unfolding swap32 send_buffer
w'-IsAnswer = record { fits = answer-FcFits; from_fabric = refl; not_for_vfm = omega arith }

login_round_trip_example :
    (f : List ℕ) × (create_packet_ex cfg env w fw t ctrl (flogi_desc 7 36 0 0 h 4 body 2 2 vhba [])
      ≡ ok w')
    × (process_fc_response cfg env w'
          (response pre answer (ls_of true) reply)
          (length (response pre answer (ls_of true) reply))
          (length pre)
          t
        ≡ ok (record (after_send env w' f) { req_map = without w'.req_map (swap16 256) }))
    × (read_eth_hdr f (length f) 40 ≡ ok (fip_header fw.shost_mac cfg.g_bridge_enc_mac, 56))
    × (read_ctrl_hdr f (length f) 56 ≡ ok (fdisc_ctrl (exchange fw ctrl h vhba) true, 64))
    × (drop 64 f
        ≡ answer_desc cfg
            (exchange fw ctrl h vhba)
            (fc_to_host answer)
            answer
            true
            (ls_of true ∷ reply)
          ++ le32 0)
    × (get_entry_from_map (without w'.req_map (swap16 256)) (swap16 256) ≡ ok none)
unfolding swap16 add_entry_to_map init fdisc_ctrl flogi_entry
login_round_trip_example =
    login_round_trip cfg env w fw t t ctrl 7 36 0 0 h 4 body 2 2 vhba [] pre answer reply true
      init-IsValid refl (omega arith) w'-IsAnswer refl (omega arith) (omega arith) (omega arith)

own_login_answered_example :
    (create_vfm_flogi cfg env w ≡ ok (after_own cfg env w))
    × (process_fc_response cfg env
          (after_own cfg env w)
          (response pre answer 2 reply)
          (length (response pre answer 2 reply))
          (length pre)
          t
        ≡ ok (record (after_own cfg env w) {
          g_gw_src_id = swap32 answer.rt_ctrl_dest_id % 2 ^ 24;
          req_map = without (after_own cfg env w).req_map (swap16 answer.ox_id);
        }))
unfolding swap16 swap32 send_buffer add_entry_to_map init
own_login_answered_example =
    own_login_answered cfg env w pre answer 2 reply t init-IsValid answer-FcFits refl refl
      (omega arith)

-- a VFM whose address is the one that the bridge's frame goes to
abbrev addressed : World
addressed = record w { g_gw_src_id = 0x000405 }

request_rejected_example :
    (process_fc_response cfg env addressed
        (response pre answer 3 reply)
        (length (response pre answer 3 reply))
        (length pre)
        t
      ≡ ok (
          after_send env addressed (
            fc_frame cfg.g_bridge_mac cfg.g_local_mac
              (default_tunnel mellanox set_e)
              (reject_frame answer))))
    × ((after_send env addressed (
          fc_frame cfg.g_bridge_mac cfg.g_local_mac
            (default_tunnel mellanox set_e)
            (reject_frame answer))).req_map
        ≡ init)
    × (read_fc_hdr (reject_frame answer) 32 0 ≡ ok (reject_read answer, 24))
unfolding swap32
request_rejected_example =
    request_rejected cfg env addressed pre answer 3 reply t answer-FcFits refl (omega arith)

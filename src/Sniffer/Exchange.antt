-- ===== src/Sniffer/Exchange.antt =====
-- `process_fc_response`: what the bridge's FC frames do to the exchanges in the table.
use vfm.Base.{
  ℕ, zero, suc, ◌+◌, ◌*◌, ◌%◌, ◌^◌, ◌≤◌, ◌≡◌, ◌≢◌, ◌⊎◌, refl, ap, ◌∙◌, inl, inr, Bool, true, false,
  none, some, List, [], ◌∷◌, ◌++◌, arith, length, drop, get_elem?, drop_past, length-append,
  IsWord16, IsWord32, swap16, swap32, le32, of_le16-le16, of_le32-le32, if◌then◌else◌, ◌==◌, ne→==,
}
use vfm.Outcome.{ok, fault, ◌>>=◌}
use vfm.Fip.{FcHdr, TunnelHdr, dword, fc_image}
use vfm.Fip.Read.{read_eth_hdr, read_fc_hdr, read_ctrl_hdr, fc_to_host}
use vfm.ReqMap.{Entry, ReqMap, get_entry_from_map, remove_entry_from_map}
use vfm.ReqMap.Slots.{IsValid}
use vfm.ReqMap.Remove.{without, remove-Frees, out_of_range}
use vfm.World.{Config, Env, World}
use vfm.Sender.{send_buffer}
use vfm.Sender.Fc.{after_send}
use vfm.Sender.Frame.{fip_header, long_enough}
use vfm.Builder.{fdisc_ctrl, prepare_fdisc_res}
use vfm.Builder.Answer.{answer_desc, frame_dwords, fdisc_answered}
use vfm.Sniffer.{process_fc_response, own_login, host_login, pointee}

-- The header fields fit their C types.
pub record FcFits (h : FcHdr) : Type 0 where
  pub rt_ctrl_dest_id : IsWord32 h.rt_ctrl_dest_id
  pub src_id : IsWord32 h.src_id
  pub type_frame_ctrl : IsWord32 h.type_frame_ctrl
  pub seq_count : IsWord16 h.seq_count
  pub ox_id : IsWord16 h.ox_id
  pub res_id : IsWord16 h.res_id
  pub parameter : IsWord32 h.parameter

-- A received frame: the headers in front, the FC header in network order, the LS command, the rest.
abbrev pub response : List ℕ → FcHdr → (ls : ℕ) → List ℕ → List ℕ
response pre raw ls body = pre ++ (fc_image raw ++ ls ∷ body)

pub reads_fc :
    (pre : List ℕ) (raw : FcHdr) (ls : ℕ) (body : List ℕ)
    → FcFits raw
    → IsWord32 (length (response pre raw ls body))
    → read_fc_hdr (response pre raw ls body) (length (response pre raw ls body)) (length pre)
      ≡ ok (fc_to_host raw, length pre + 24)
unfolding read_fc_hdr
reads_fc pre raw ls body fit small = rw (
  long_enough (length (response pre raw ls body)) (length pre) 24
      (omega (arith, length-append pre (fc_image raw ++ ls ∷ body))) small,
  drop_past (length pre) 0 pre (fc_image raw ++ ls ∷ body) (omega arith),
  of_le32-le32 raw.rt_ctrl_dest_id fit.rt_ctrl_dest_id,
  of_le32-le32 raw.src_id fit.src_id,
  of_le32-le32 raw.type_frame_ctrl fit.type_frame_ctrl,
  of_le16-le16 raw.seq_count fit.seq_count,
  of_le16-le16 raw.ox_id fit.ox_id,
  of_le16-le16 raw.res_id fit.res_id,
  of_le32-le32 raw.parameter fit.parameter,
)

get_past :
    (n k : ℕ) (pre xs : List ℕ) → length pre + k ≡ n → get_elem? (pre ++ xs) n ≡ get_elem? xs k
get_past n k [] xs e = ap (λ i. get_elem? xs i) (omega arith)
get_past zero k (p ∷ pre) xs e = absurd (omega arith)
get_past (suc n) k (p ∷ pre) xs e = get_past n k pre xs (omega arith)

-- A send changes the wire and the socket only.
pub sent-req_map : (env : Env) (w : World) (f : List ℕ) → (after_send env w f).req_map ≡ w.req_map
unfolding send_buffer
sent-req_map env w f = ground arith

-- The frame is an answer to an exchange of the VFM: it comes from the fabric's login server, and
-- is not addressed to the VFM.
pub record IsAnswer (w : World) (raw : FcHdr) : Type 0 where
  pub fits : FcFits raw
  pub from_fabric : swap32 raw.src_id % 2 ^ 24 ≡ 0x00FFFFFE
  pub not_for_vfm : w.g_gw_src_id ≢ swap32 raw.rt_ctrl_dest_id % 2 ^ 24

-- `process_fc_response` as far as the table.
pub answer_looked_up :
    (cfg : Config) (env : Env) (w : World) (pre : List ℕ) (raw : FcHdr) (ls : ℕ) (body : List ℕ)
    (t : TunnelHdr)
    → IsAnswer w raw
    → IsWord32 (length (response pre raw ls body))
    → process_fc_response cfg env w
        (response pre raw ls body)
        (length (response pre raw ls body))
        (length pre)
        t
      ≡ (do
        found ← get_entry_from_map w.req_map (swap16 raw.ox_id)
        e ← pointee found
        if e.flag == 1
            then own_login w (fc_to_host raw) ls
            else host_login cfg env w
                (response pre raw ls body)
                (length pre + 24)
                e
                (fc_to_host raw)
                ls)
unfolding process_fc_response fc_to_host
answer_looked_up cfg env w pre raw ls body t is small = rw (
  reads_fc pre raw ls body is.fits small,
  ne→== w.g_gw_src_id (swap32 raw.rt_ctrl_dest_id % 2 ^ 24) is.not_for_vfm,
  is.from_fabric,
  get_past (length pre + 24) 24 pre (fc_image raw ++ ls ∷ body) refl,
)

-- the LS command of an answer
abbrev pub ls_of : Bool → ℕ
ls_of accept = if accept then 0x02 else 0x01

host_answered :
    (cfg : Config) (env : Env) (w : World) (buff : List ℕ) (pos : ℕ) (e : Entry) (h : FcHdr)
    (accept : Bool) (f : List ℕ) (m : ReqMap)
    → prepare_fdisc_res cfg env w buff pos e h accept ≡ ok (after_send env w f)
    → remove_entry_from_map w.req_map h.ox_id ≡ ok m
    → host_login cfg env w buff pos e h (ls_of accept)
      ≡ ok (record (after_send env w f) { req_map = m })
unfolding host_login
host_answered cfg env w buff pos e h true f m made gone = rw (made, sent-req_map env w f, gone)
host_answered cfg env w buff pos e h false f m made gone = rw (made, sent-req_map env w f, gone)

-- When the fabric's login server (0xFFFFFE) accepts or rejects a request that a well-formed table has
-- an entry for, other than the VFM's own, one frame is handed to `sendto`: a FLOGI response to the
-- host's address with the bridge's FC frame, the host's own exchange id put back. The exchange is
-- closed: its key finds nothing any more, and other keys what they found. This holds for a frame
-- that is not addressed to the VFM's own address, and has at least 118 bytes behind its FC header
-- for an accept and 10 for a reject, 2 more than a whole payload; its fields and size fit their C
-- types.
pub answer_relayed :
    (cfg : Config) (env : Env) (w : World) (pre : List ℕ) (raw : FcHdr) (body : List ℕ)
    (t : TunnelHdr) (e : Entry) (accept : Bool) (j : ℕ)
    → IsAnswer w raw
    → IsValid w.req_map
    → get_entry_from_map w.req_map (swap16 raw.ox_id) ≡ ok (some e)
    → e.flag ≢ 1
    → frame_dwords accept * dword ≤ length body + 27
    → IsWord16 (fdisc_ctrl e accept).flags
    → IsWord32 (length (response pre raw (ls_of accept) body))
    → let buff : List ℕ = response pre raw (ls_of accept) body in
      let m = without w.req_map (swap16 raw.ox_id) in
      (f : List ℕ) × (process_fc_response cfg env w buff (length buff) (length pre) t
        ≡ ok (record (after_send env w f) { req_map = m }))
      × (read_eth_hdr f (length f) 40 ≡ ok (fip_header e.mac cfg.g_bridge_enc_mac, 56))
      × (read_ctrl_hdr f (length f) 56 ≡ ok (fdisc_ctrl e accept, 64))
      × (drop 64 f ≡ answer_desc cfg e (fc_to_host raw) raw accept (ls_of accept ∷ body) ++ le32 0)
      × (get_entry_from_map m j
          ≡ (if j == swap16 raw.ox_id then ok none else get_entry_from_map w.req_map j))
answer_relayed cfg env w pre raw body t e accept j is v found own le fit small =
    let ls = ls_of accept in
    let buff : List ℕ = response pre raw ls body in
    let m = without w.req_map (swap16 raw.ox_id) in
    let (gone, answers, _, _) = remove-Frees w.req_map (swap16 raw.ox_id) j e e v found in
    let (f, made, eth, ctrl, rest) =
      fdisc_answered cfg env w (length pre) pre raw (ls ∷ body) e (fc_to_host raw) accept refl
        (omega arith) fit in
    let done : host_login cfg env w buff (length pre + 24) e (fc_to_host raw) ls
        ≡ ok (record (after_send env w f) { req_map = m }) =
      host_answered cfg env w buff (length pre + 24) e (fc_to_host raw) accept f m made
        (unfold fc_to_host in gone) in
    (
      f,
      answer_looked_up cfg env w pre raw ls body t is small ∙ rw (found, ne→== e.flag 1 own) done,
      eth,
      ctrl,
      rest,
      answers,
    )

-- A response whose exchange id is from 1024 on reads a well-formed `g_req_map` out of bounds,
-- and one whose exchange is unknown reads through NULL; neither is an error that is reported.
pub answer_unchecked :
    (cfg : Config) (env : Env) (w : World) (pre : List ℕ) (raw : FcHdr) (ls : ℕ) (body : List ℕ)
    (t : TunnelHdr)
    → IsAnswer w raw
    → IsValid w.req_map
    → (1024 ≤ swap16 raw.ox_id) ⊎ (get_entry_from_map w.req_map (swap16 raw.ox_id) ≡ ok none)
    → IsWord32 (length (response pre raw ls body))
    → let buff : List ℕ = response pre raw ls body in
      process_fc_response cfg env w buff (length buff) (length pre) t ≡ fault
answer_unchecked cfg env w pre raw ls body t is v (inl far) small =
    answer_looked_up cfg env w pre raw ls body t is small
    ∙ rw ((out_of_range w.req_map (swap16 raw.ox_id) v far).0)
answer_unchecked cfg env w pre raw ls body t is v (inr unknown) small =
    answer_looked_up cfg env w pre raw ls body t is small ∙ rw unknown

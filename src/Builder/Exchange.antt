-- ===== src/Builder/Exchange.antt =====
-- The exchange id of a host's FLOGI: replaced by a key on the way to the bridge.
use Prim.Native.Nat.{bit_or}
use vfm.Base.{
  ℕ, ◌≡◌, subst, List, [], ◌∷◌, ◌++◌, arith, length, drop, take_all, drop_past, IsWord16, swap16,
  of_le16-le16, le16,
}
use vfm.Outcome.{ok}
use vfm.Ether.{Mac, mac, mac_bytes}
use vfm.Fip.{EthHdr, FcHdr, CtrlHdr, TunnelHdr, fc_image, take_mac}
use vfm.Fip.Memory.{slice, take_exact, take_exact-append, write_into}
use vfm.ReqMap.{Entry, add_entry_to_map}
use vfm.World.{Config, Env, World}
use vfm.Sender.Fc.{fc_frame, after_send, send_fc_packet-sent}
use vfm.Builder.{create_packet_ex, flogi_entry, name_vender, vpsystem, set_e}

-- A FLOGI as the host sends it: the descriptor's four bytes, the FC header, the LS command and
-- its 115 bytes, then a descriptor with the vHBA's address.
abbrev pub flogi_desc :
    (a b c d : ℕ) → FcHdr → (ls : ℕ) → List ℕ → (x y : ℕ) → Mac → List ℕ → List ℕ
flogi_desc a b c d h ls body x y vhba more =
    a ∷ b ∷ c ∷ d ∷ fc_image h ++ (ls ∷ body ++ (x ∷ y ∷ mac_bytes vhba ++ more))

-- The FC frame that the bridge gets for it: an FDISC with the given exchange id.
abbrev pub fdisc_payload : FcHdr → (key : ℕ) → List ℕ → List ℕ
fdisc_payload h key body = fc_image (record h { ox_id = swap16 key }) ++ 0x51 ∷ body

payload_slice :
    (a b c d : ℕ) (h : FcHdr) (ls : ℕ) (body : List ℕ) (x y : ℕ) (vhba : Mac) (more : List ℕ)
    → length body ≡ 115
    → slice 4 140 (flogi_desc a b c d h ls body x y vhba more) ≡ ok (fc_image h ++ ls ∷ body)
unfolding slice take_exact
payload_slice a b c d h ls body x y vhba more e =
    let t : take_exact 115 (body ++ (x ∷ y ∷ mac_bytes vhba ++ more)) ≡ ok body =
      subst (λ n. take_exact n (body ++ (x ∷ y ∷ mac_bytes vhba ++ more)) ≡ ok body) e
        (take_exact-append body (x ∷ y ∷ mac_bytes vhba ++ more)) in
    rw t

write_ls :
    (h : FcHdr) (ls : ℕ) (body : List ℕ)
    → length body ≡ 115
    → write_into 24 (0x51 ∷ []) (fc_image h ++ ls ∷ body) ≡ ok (fc_image h ++ 0x51 ∷ body)
unfolding write_into
write_ls h ls body e = rw (take_all (length body) body (omega arith), e)

write_oxid :
    (h : FcHdr) (k : ℕ) (body : List ℕ)
    → length body ≡ 115
    → write_into 16 (le16 (swap16 k)) (fc_image h ++ 0x51 ∷ body) ≡ ok (fdisc_payload h k body)
unfolding write_into
write_oxid h k body e = rw (take_all (length body) body (omega arith), e)

vhba_at :
    (a b c d : ℕ) (h : FcHdr) (ls : ℕ) (body : List ℕ) (x y : ℕ) (vhba : Mac) (more : List ℕ)
    → length body ≡ 115
    → take_mac (drop 146 (flogi_desc a b c d h ls body x y vhba more)) ≡ ok (vhba, more)
vhba_at a b c d h ls body x y (mac p q r s t u) more e =
    rw (drop_past 117 2 body (x ∷ y ∷ mac_bytes (mac p q r s t u) ++ more) (omega arith))

-- the tunnel header that goes to the bridge
abbrev pub to_bridge : TunnelHdr → TunnelHdr
to_bridge t = name_vender vpsystem (record t { port_num = bit_or t.port_num set_e })

-- The exchange that a FLOGI leaves in the table.
abbrev pub exchange : EthHdr → CtrlHdr → FcHdr → Mac → Entry
exchange fw c h vhba = flogi_entry fw c h.ox_id vhba

-- A host's FLOGI with its 116 bytes of payload is forwarded as an FDISC: the frame handed to
-- `sendto` carries the FC header and the payload as they came, with the LS command 0x51 and,
-- for the originator's exchange id, the key under which the table keeps that id, the host's
-- address, its flags and the vHBA's address.
pub flogi_forwarded :
    (cfg : Config) (env : Env) (w : World) (fw : EthHdr) (t : TunnelHdr) (ctrl : CtrlHdr)
    (a b c d : ℕ) (h : FcHdr) (ls : ℕ) (body : List ℕ) (x y : ℕ) (vhba : Mac) (more : List ℕ)
    → length body ≡ 115
    → IsWord16 h.ox_id
    → let added = add_entry_to_map w.req_map (exchange fw ctrl h vhba) in
      create_packet_ex cfg env w fw t ctrl (flogi_desc a b c d h ls body x y vhba more)
      ≡ ok (
          after_send env
            (record w { req_map = added.1 })
            (fc_frame cfg.g_bridge_mac cfg.g_local_mac
              (to_bridge t)
              (fdisc_payload h added.0 body)))
unfolding create_packet_ex
flogi_forwarded cfg env w fw t ctrl a b c d h ls body x y vhba more e word =
    let added = add_entry_to_map w.req_map (exchange fw ctrl h vhba) in
    let p : List ℕ = fdisc_payload h added.0 body in
    rw (
      payload_slice a b c d h ls body x y vhba more e,
      write_ls h ls body e,
      vhba_at a b c d h ls body x y vhba more e,
      of_le16-le16 h.ox_id word,
      write_oxid h added.0 body e,
      send_fc_packet-sent cfg env (record w { req_map = added.1 }) cfg.g_local_mac cfg.g_bridge_mac
          (to_bridge t) p 140 (omega (arith, e)) (omega arith),
      take_all 115 body (omega arith),
    )

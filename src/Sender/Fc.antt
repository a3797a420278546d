-- ===== src/Sender/Fc.antt =====
-- `send_fc_packet`: the frames with an FC payload behind the tunnel header.
use vfm.Base.{
  ℕ, true, ◌+◌, ◌/◌, ◌%◌, ◌≤◌, ◌<◌, subst, ◌≡◌, refl, Option, none, some, List, [], ◌++◌, arith,
  length, take, le→ltb, length-take,
}
use vfm.Outcome.{VpsError, ok, fault}
use vfm.Ether.{Mac, mac, Name, name}
use vfm.Fip.{CtrlHdr, TunnelHdr, dword}
use vfm.Fip.Memory.{slice-ok, slice-fault}
use vfm.Fip.Read.{tunnel_hdr_len}
use vfm.World.{Config, Env, World}
use vfm.Sender.{
  max_pk_len, send_buffer, as_send_pk, sent, send_fc_packet, send_packet, packet_bytes,
  fc_packet_bytes, fill_ether_hdr, fill_tunnel_hdr, bounded,
}

-- A frame to the bridge: two headers of 40 bytes together, and the FC payload.
unfoldable pub fc_frame : (bridge_mac vfm_mac : Mac) → TunnelHdr → List ℕ → List ℕ
unfolding fill_ether_hdr fill_tunnel_hdr
fc_frame gm vm t payload =
    fill_tunnel_hdr (fill_ether_hdr [] gm vm 0)
      (record t { length = (tunnel_hdr_len + length payload) / dword % 256 })
    ++ payload

-- The world after a frame was given to `sendto`.
abbrev pub after_send : Env → World → List ℕ → World
after_send env w frame = (send_buffer env w frame).1

sent-as_send_pk : (p : Option VpsError × World) → sent (ok (as_send_pk p)) ≡ ok p.1
sent-as_send_pk (none, w) = refl
sent-as_send_pk (some _, w) = refl

-- A control packet that fits is handed to `sendto`.
pub send_packet-sent :
    (cfg : Config) (env : Env) (w : World) (vm cm bm : Mac) (t : TunnelHdr) (c : CtrlHdr)
    (desc f : List ℕ)
    → packet_bytes cfg true vm cm bm t c desc ≡ ok f
    → sent (send_packet cfg env w true vm cm bm t c desc) ≡ ok (after_send env w f)
unfolding send_packet
send_packet-sent cfg env w vm cm bm t c desc f e = rw e (sent-as_send_pk (send_buffer env w f))

length-fc_frame :
    (gm vm : Mac) (t : TunnelHdr) (n : Name) (payload : List ℕ)
    → t.t10_vender_id ≡ n
    → length (fc_frame gm vm t payload) ≡ 40 + length payload
unfolding fc_frame
length-fc_frame (mac _ _ _ _ _ _) (mac _ _ _ _ _ _) t (name _ _ _ _ _ _ _ _) payload e =
    rw e (omega arith)

bounded-fc_frame :
    (gm vm : Mac) (t : TunnelHdr) (payload : List ℕ)
    → 40 + length payload ≤ max_pk_len
    → bounded (fc_frame gm vm t payload) ≡ ok (fc_frame gm vm t payload)
unfolding bounded
bounded-fc_frame gm vm t payload h = rw (
    le→ltb max_pk_len (length (fc_frame gm vm t payload))
      (omega (arith, length-fc_frame gm vm t t.t10_vender_id payload refl)))

-- The frame that `send_fc_packet` sends, when the buffer holds the bytes and the frame fits.
fc_packet_bytes-ok :
    (cfg : Config) (vm : Mac) (t : TunnelHdr) (desc : List ℕ) (n : ℕ)
    → n ≤ length desc
    → 40 + n ≤ max_pk_len
    → fc_packet_bytes cfg vm t desc n ≡ ok (fc_frame cfg.g_bridge_mac vm t (take n desc))
unfolding fc_packet_bytes fc_frame
fc_packet_bytes-ok cfg vm t desc n le small =
    let size : length (take n desc) ≡ n = omega (arith, length-take n desc) in
    rw (slice-ok 0 n desc (omega arith)) (
      subst
        (λ m.
          bounded (
            fill_tunnel_hdr (fill_ether_hdr [] cfg.g_bridge_mac vm 0)
              (record t { length = (tunnel_hdr_len + m) / dword % 256 })
            ++ take n desc)
          ≡ ok (fc_frame cfg.g_bridge_mac vm t (take n desc)))
        size (bounded-fc_frame cfg.g_bridge_mac vm t (take n desc) (omega (arith, size))))

pub send_fc_packet-sent :
    (cfg : Config) (env : Env) (w : World) (vm bm : Mac) (t : TunnelHdr) (desc : List ℕ) (n : ℕ)
    → n ≤ length desc
    → 40 + n ≤ max_pk_len
    → sent (send_fc_packet cfg env w vm bm t desc n)
      ≡ ok (after_send env w (fc_frame cfg.g_bridge_mac vm t (take n desc)))
unfolding send_fc_packet
send_fc_packet-sent cfg env w vm bm t desc n le small =
    rw (fc_packet_bytes-ok cfg vm t desc n le small)
      (sent-as_send_pk (send_buffer env w (fc_frame cfg.g_bridge_mac vm t (take n desc))))

-- A payload that the buffer does not hold, or that leaves `buff[MAX_PK_LEN]`, is undefined.
pub send_fc_packet-fault :
    (cfg : Config) (env : Env) (w : World) (vm bm : Mac) (t : TunnelHdr) (desc : List ℕ) (n : ℕ)
    → length desc < n
    → sent (send_fc_packet cfg env w vm bm t desc n) ≡ fault
unfolding send_fc_packet fc_packet_bytes
send_fc_packet-fault cfg env w vm bm t desc n lt =
    rw (slice-fault 0 n desc (omega arith) (omega arith))

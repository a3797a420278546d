-- ===== src/Ib/Mad.antt =====
-- `create_mcast_mad_packet` of src/vps/vfm/vfm_ib.c: the request to join the group of gateway
-- advertisements, as 256 bytes of memory.
use vfm.Base.{ℕ, List, ◌∷◌, ◌++◌, le16, le32, swap16, swap32, replicate}

-- What the gateway's library and the C library do: the macro `INSERTF`, the bytes of `htonll`, and the
-- answer to a subnet request.
pub record IbLibrary : Type 0 where
  pub insertf : (w at_bit field from_bit size : ℕ) → ℕ
  pub htonll : ℕ → List ℕ
  pub bx_send_sa : List ℕ → ℕ

-- `mcast_gid`, which has one initialiser too many
abbrev pub mcast_gid : List ℕ
mcast_gid = 0xFF ∷ 0x12 ∷ 0xE0 ∷ 0x1B ∷ replicate 12 0

-- The header of a cleared packet. Its method is inserted to a byte that is 0.
unfoldable pub create_mad_header : IbLibrary → List ℕ
create_mad_header lib =
    0x01 ∷ 0x03 ∷ 0x02 ∷ lib.insertf 0 0 0x02 0 7 ∷ le16 0
    ++ (le16 0 ++ (lib.htonll 0x12345678 ++ (le16 (swap16 0x38) ++ (le16 0 ++ le32 0))))

-- What is not written of the record on the stack.
pub record Unwritten : Type 0 where
  pub mlid : ℕ
  pub mtuselector_mtu : ℕ
  pub hop_limit : ℕ
  pub proxyjoin_reserved : List ℕ

unfoldable pub fill_mcmember_record : Unwritten → (pkey : ℕ) → (port_gid : List ℕ) → List ℕ
fill_mcmember_record u pkey port_gid =
    mcast_gid
    ++ (port_gid
        ++ (le32 (swap32 0x80020002)
            ++ (le16 u.mlid
                ++ (u.mtuselector_mtu ∷ 0 ∷ le16 (swap16 pkey)
                    ++ (0 ∷ 0 ∷ 0 ∷ 0 ∷ 0 ∷ u.hop_limit ∷ 1 ∷ u.proxyjoin_reserved)))))

-- The two headers behind the first, which stay cleared but for the mask, with the padding before the
-- second; then the record in the data.
unfoldable pub create_mcast_mad_packet :
    IbLibrary → Unwritten → (pkey : ℕ) → (port_gid : List ℕ) → List ℕ
unfolding create_mad_header fill_mcmember_record
create_mcast_mad_packet lib u pkey port_gid =
    create_mad_header lib
    ++ (replicate 24 0
        ++ (lib.htonll 0x130C7 ++ (fill_mcmember_record u pkey port_gid ++ replicate 148 0)))

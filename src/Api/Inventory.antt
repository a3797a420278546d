-- ===== src/Api/Inventory.antt =====
-- The inventories in a response: src/vps/vfm/vfmimpl_unpack.c, src/vps/vfm/vfmapi_bridge_device.c,
-- src/vps/vfm/vfmapi/vfmapi_bridge_device.c and the TLV of src/vps/vfm/db/vfmdb_vfabric.c. A
-- structure that points to an array travels as its bytes with the array behind them.
use vfm.Base.{
  ℕ, zero, suc, ◌+◌, ◌*◌, ◌%◌, List, [], ◌∷◌, ◌++◌, length, le32, drop, ltb, if◌then◌else◌,
  get_elem?,
}
use vfm.Outcome.{Outcome, ok, ◌>>=◌, or_fault}
use vfm.Fip.Memory.{take_exact}
use vfm.Api.{tlv_vfabric_attr, ResPacket, object}
use vfm.Api.Tlv.{word_at}

-- What the compiler makes of the structures: the sizes of `vfm_vfabric_attr_t`,
-- `vfm_vadapter_attr_t` and `vfm_bd_attr_t`, and where `_num_vadapter` and `_num_gw_module` are.
pub record Abi : Type 0 where
  pub vfabric_attr_size : ℕ
  pub num_vadapter_at : ℕ
  pub vadapter_attr_size : ℕ
  pub bd_attr_size : ℕ
  pub num_gw_module_at : ℕ

-- A structure and the array that it points to.
pub record Listed : Type 0 where
  pub attr : List ℕ
  pub array : List ℕ

-- the TLV of a virtual fabric, with the ids of its adapters
unfoldable pub vfabric_tlv : Listed → List ℕ
vfabric_tlv v =
    le32 tlv_vfabric_attr
    ++ le32 ((length v.attr + length v.array) % 4294967296)
    ++ (v.attr ++ v.array)

-- A count is a signed `int`: the loops do not run for one above 2 ^ 31 - 1.
unfoldable pub rounds : ℕ → ℕ
rounds count = if ltb count 2147483648 then count else 0

module _ (abi : Abi) where
  unfoldable pub unpack_vfabrics : (count : ℕ) → List ℕ → Outcome (List Listed)
  unfolding take_exact word_at
  unpack_vfabrics zero m = ok []
  unpack_vfabrics (suc n) m = take_exact 8 m >>= λ _.
      take_exact abi.vfabric_attr_size (drop 8 m) >>= λ attr.
      word_at abi.num_vadapter_at attr >>= λ num.
      let ids : List ℕ = drop abi.vfabric_attr_size (drop 8 m) in
      let size : ℕ = num * 4 % 4294967296 in
      take_exact size ids >>= λ array. unpack_vfabrics n (drop size ids) >>= λ rest.
      ok (record { attr = attr; array = array } ∷ rest)

  unfoldable pub process_vfabric_data : (buff : List ℕ) → (ret_pos : ℕ) → Outcome (List Listed)
  unfolding word_at unpack_vfabrics rounds
  process_vfabric_data buff pos =
      word_at pos buff >>= λ count. unpack_vfabrics (rounds count) (drop (pos + 4) buff)

  unfoldable pub unpack_vadapters : (count : ℕ) → List ℕ → Outcome (List (List ℕ))
  unfolding take_exact
  unpack_vadapters zero m = ok []
  unpack_vadapters (suc n) m = take_exact 8 m >>= λ _.
      take_exact abi.vadapter_attr_size (drop 8 m) >>= λ attr.
      unpack_vadapters n (drop abi.vadapter_attr_size (drop 8 m)) >>= λ rest. ok (attr ∷ rest)

  unfoldable pub unpack_vadapter_data : (buff : List ℕ) → (ret_pos : ℕ) → Outcome (List (List ℕ))
  unfolding word_at unpack_vadapters rounds
  unpack_vadapter_data buff pos =
      word_at pos buff >>= λ count. unpack_vadapters (rounds count) (drop (pos + 4) buff)

  -- `_num_gw_module` is a single byte.
  unfoldable pub num_gw_module : List ℕ → Outcome ℕ
  num_gw_module attr = or_fault (get_elem? attr abi.num_gw_module_at)

  -- The loop of `pack_bridge_data`: each bridge is appended to the block.
  unfoldable pub pack_bridges : List Listed → (block : List ℕ) → Outcome (List ℕ)
  unfolding take_exact num_gw_module
  pack_bridges [] block = ok block
  pack_bridges (b ∷ bridges) block = take_exact abi.bd_attr_size b.attr >>= λ attr.
      num_gw_module attr >>= λ num.
      take_exact (num * 8) b.array >>= λ index. pack_bridges bridges (block ++ (attr ++ index))

  unfoldable pub pack_bridge_data : List Listed → Outcome ResPacket
  unfolding pack_bridges
  pack_bridge_data bridges = pack_bridges bridges (le32 (length bridges % 4294967296)) >>= λ block.
      ok (record { content = object block; size = length block; count = 0 })

  unfoldable pub unpack_bridges : (count : ℕ) → List ℕ → Outcome (List Listed)
  unfolding take_exact num_gw_module
  unpack_bridges zero m = ok []
  unpack_bridges (suc n) m = take_exact abi.bd_attr_size m >>= λ attr. num_gw_module attr >>= λ num.
      let behind : List ℕ = drop abi.bd_attr_size m in
      take_exact (num * 8) behind >>= λ index. unpack_bridges n (drop (num * 8) behind) >>= λ rest.
      ok (record { attr = attr; array = index } ∷ rest)

  -- `num_result` is unsigned where it is read, but the loop compares it as it is.
  unfoldable pub unpack_bridge_data : (op_pack : List ℕ) → Outcome (List Listed)
  unfolding word_at unpack_bridges
  unpack_bridge_data packed = word_at 0 packed >>= λ count. unpack_bridges count (drop 4 packed)

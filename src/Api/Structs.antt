-- ===== src/Api/Structs.antt =====
-- The structures of src/vps/vfm/include/vfmapi that a request carries, as the server reads them from
-- the bytes that were copied to them, and as it writes them.
use vfm.Base.{ℕ, Bool, List}
use vfm.Db.Rows.{VadapterRow}
use vfm.Db.Adapters.{Adapter, VadapterBits, EnAttr}
use vfm.Db.Fabric.{VfabricRow}
use vfm.Db.Fabrics.{VfabricBits}
use vfm.Db.Bridges.{Bridge, BridgeBits, Device}

-- the bits of `vfm_vadapter_en_attr_bitmask_t` that an edit looks at
pub record EnBits : Type 0 where
  pub mac : Bool
  pub vlan : Bool
  pub promiscuous_mode : Bool
  pub silent_listener : Bool

-- What the compiler makes of the structures: the sizes of the bitmasks and of the Ethernet
-- attributes, the fields that the bytes of a structure hold, and its bytes. A field of a byte that is
-- read as a word takes in the three bytes behind it.
pub record Layout : Type 0 where
  pub vadapter_bits_size : ℕ
  pub vadapter_bits : List ℕ → VadapterBits
  pub vadapter_attr : List ℕ → VadapterRow
  pub vadapter_state : List ℕ → ℕ
  pub vadapter_image : Adapter → List ℕ
  pub en_bits_size : ℕ
  pub en_bits : List ℕ → EnBits
  pub en_attr_size : ℕ
  pub en_attr : List ℕ → EnAttr
  pub promiscuous_mode_word : List ℕ → ℕ
  pub silent_listener_word : List ℕ → ℕ
  pub vfabric_bits_size : ℕ
  pub vfabric_bits : List ℕ → VfabricBits
  pub vfabric_attr : List ℕ → VfabricRow
  pub auto_failback_word : List ℕ → ℕ
  pub vfabric_image : VfabricRow → List ℕ
  pub bd_bits_size : ℕ
  pub bd_bits : List ℕ → BridgeBits
  pub bd_attr : List ℕ → Bridge
  pub bd_image : Device → List ℕ

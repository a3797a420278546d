-- ===== src/Api/Bridges.antt =====
-- An inventory of bridge devices, from the server's block to the client's list.
use vfm.Base.{ℕ, ◌*◌, ◌≡◌, List, [], ◌∷◌, ◌++◌, length}
use vfm.Outcome.{ok}
use vfm.Api.Inventory.{Abi, Listed, num_gw_module}

abbrev pub bridge_bytes : List Listed → List ℕ
bridge_bytes [] = []
bridge_bytes (b ∷ bs) = (b.attr ++ b.array) ++ bridge_bytes bs

module _ (abi : Abi) where
  -- A structure of the right size, with eight bytes for each gateway module that it counts.
  abbrev pub AreBridges : List Listed → Type 0
  AreBridges [] = Unit
  AreBridges (b ∷ bs) =
      ((length b.attr ≡ abi.bd_attr_size)
        × (num : ℕ) × (num_gw_module abi b.attr ≡ ok num)
        × (length b.array ≡ num * 8))
      × AreBridges bs

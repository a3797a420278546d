-- ===== src/Fip/Tlv.antt =====
-- The type-length-value descriptors of FIP: `create_tlv` of src/vps/vfm/vfm_create_pk.c (with
-- `OPEN_FCOE`, as the Makefile builds it), and `get_tlv` and `get_tlv_value` of
-- src/vps/vfm/vfm_fip.c. `malloc` is taken to succeed.
pub mod Bounds
pub mod RoundTrip
use vfm.Base.{
  ℕ, zero, suc, ◌+◌, ◌-◌, ◌*◌, ◌/◌, ◌%◌, ◌^◌, ◌==◌, ◌||◌, Option, none, some, List, [], ◌∷◌, ◌++◌,
  if◌then◌else◌, length, take, drop, replicate, set, sub32, swap16, swap32, of_le16, of_le32, le16,
  le32, get_elem?,
}
use vfm.Outcome.{Outcome, ok, fault, or_fault, ◌>>=◌}
use vfm.Fip.{dword, take16, take32, take_mac}
use vfm.Ether.{Mac}
use vfm.Fip.Memory.{Object, store, slice}

-- `vp_tlv`
pub record Tlv : Type 0 where
  pub type : ℕ
  pub length : ℕ
  pub value : List ℕ

-- `(tlv->length * DWORD) - sizeof(tlv->length) - sizeof(tlv->type)` as a `uint32_t`
abbrev pub value_length : ℕ → ℕ
value_length len = sub32 (len * dword) 2

unfoldable pub get_tlv : List ℕ → Outcome Tlv
get_tlv msg_desc = do
  type ← or_fault (get_elem? msg_desc 0)
  len ← or_fault (get_elem? msg_desc 1)
  value ← slice 2 (value_length len) msg_desc
  ok (record { type = type; length = len; value = value })

-- Where `create_tlv` copies to in the value, and how many bytes.
unfoldable pub placement : ℕ → ℕ → Option (ℕ × ℕ)
placement type len =
    if type == 1
    then some (1, 1)
    else if type == 2
    then some (0, 6)
    else if type == 3
    then some (3, 3)
    else if type == 4
    then some (2, 2 * dword)
    else if type == 5
    then some (3, len)
    else if type == 6
    then some (0, 2)
    else if type == 7
    then some (2, len)
    else if type == 12
    then some (2, dword)
    else if type == 13
    then some (2, len)
    else if type == 101
    then some (2, 5 * dword)
    else if type == 240
    then some (2, len)
    else if type == 241
    then some (2, len)
    else none

-- The zeroed block of the value, and the copy from `src`, the bytes from `data` on.
unfoldable pub create_tlv : (type len : ℕ) → List ℕ → Outcome Object
create_tlv type len src =
    let block : Object = record { bytes = replicate (value_length len) 0; spill = 0 } in
    elim (placement type (value_length len)) [
      | none ↦ ok block
      | some (at, n) ↦ slice 0 n src >>= λ bs. ok (store block at bs)
    ]

-- A descriptor as it is laid into a message: `memcpy` of type and length, then of the value.
unfoldable pub emit_tlv : (type len : ℕ) → List ℕ → Outcome Object
unfolding create_tlv placement slice store
emit_tlv type len src = do
  tlv ← create_tlv type len src
  value ← slice 0 (len * dword - 2) tlv.bytes
  ok (record tlv { bytes = type ∷ len ∷ value })

-- `mlx_gateway`
pub record Gateway : Type 0 where
  pub ext_ports : ℕ
  pub flags : ℕ
  pub gw_id : ℕ
  pub ports_stats : ℕ

-- What a decoding leaves at `data`: the bytes, and the array that a bridge descriptor points at.
pub record Decoded : Type 0 where
  pub bytes : List ℕ
  pub gw_arr : List Gateway

abbrev pub raw : List ℕ → Decoded
raw bs = record { bytes = bs; gw_arr = [] }

-- What the code reads without having written it: the two bytes behind `tmp_word` on the stack, and
-- the bytes of the pointer that `malloc` returns for the gateways.
pub record Memory : Type 0 where
  pub behind_tmp_word : ℕ × ℕ
  pub gw_pointer : List ℕ

read_gateway : List ℕ → Outcome Gateway
read_gateway (a ∷ b ∷ c ∷ d ∷ e ∷ f ∷ g ∷ h ∷ _) =
    ok (record { ext_ports = a; flags = b; gw_id = of_le16 c d; ports_stats = of_le32 e f g h })
read_gateway _ = fault

-- `gateway_ptr->gw_id = ntohs(...)`: `gateway_ptr` stays at the first gateway.
unfoldable pub swap_first : List Gateway → List Gateway
swap_first [] = []
swap_first (g ∷ gs) = record g { gw_id = swap16 g.gw_id; ports_stats = swap32 g.ports_stats } ∷ gs

-- The loop: the gateways so far, and how many are left in the bytes at `tmp_ptr`.
unfoldable pub gateways : ℕ → List ℕ → List Gateway → Outcome (List Gateway)
unfolding read_gateway swap_first
gateways zero m arr = ok arr
gateways (suc left) m arr =
    read_gateway m >>= λ g. gateways left (drop 8 m) (swap_first (arr ++ g ∷ []))

-- `MLX_TLV_2`; `mlx_bridgeX` is 24 bytes long, a pointer at 16.
bridge_value : Memory → List ℕ → Outcome Decoded
unfolding gateways
bridge_value mem value = do
  bs ← slice 2 24 value
  (gw_num, r) ← take16 bs
  (db_id, r) ← take16 r
  let num = swap16 gw_num / 4096 % 16
  arr ← gateways num (drop 14 value) []
  ok (record {
    bytes = le16 num ++ (le16 (swap16 db_id) ++ (take 12 r ++ mem.gw_pointer));
    gw_arr = arr;
  })

-- `TLV_11`; `vHBA` is 20 bytes long, `port_id` at 8.
vhba_value : List ℕ → Outcome Decoded
vhba_value value = do
  bs ← slice 0 20 value
  (port, r) ← take32 (drop 8 bs)
  ok (raw (take 8 bs ++ (le32 (swap32 port) ++ r)))

-- `MLX_TLV_240`; `mlx_spec_tlv_240` is 24 bytes long.
eoib_value : List ℕ → Outcome Decoded
eoib_value value = do
  bs ← slice 2 24 value
  (qpn, r) ← take32 (drop 8 bs)
  (sl, r) ← take16 r
  (lid, r) ← take16 r
  ok (raw (take 8 bs ++ (le32 (swap32 qpn) ++ (le16 (swap16 sl) ++ (le16 (swap16 lid) ++ r)))))

swapped_dword : ℕ → List ℕ → Outcome Decoded
swapped_dword at value = do (d, _) ← take32 (drop at value); ok (raw (le32 (swap32 d)))

-- `memcpy(data, &tmp_word, sizeof(uint32_t))`
max_recv_value : Memory → List ℕ → Outcome Decoded
max_recv_value mem value = do
  (w, _) ← take16 value
  ok (raw (le16 (swap16 w) ++ (mem.behind_tmp_word.0 ∷ mem.behind_tmp_word.1 ∷ [])))

copied : ℕ → ℕ → List ℕ → Outcome Decoded
copied at n value = slice at n value >>= λ bs. ok (raw bs)

unfoldable pub get_tlv_value : Memory → Tlv → Outcome Decoded
unfolding bridge_value vhba_value eoib_value swapped_dword max_recv_value copied
get_tlv_value mem tlv =
    if tlv.type == 1
    then copied 1 1 tlv.value
    else if tlv.type == 2
    then copied 0 6 tlv.value
    else if tlv.type == 3
    then swapped_dword 0 tlv.value
    else if tlv.type == 4
    then copied 2 8 tlv.value
    else if tlv.type == 5
    then copied 2 8 tlv.value
    else if tlv.type == 6
    then max_recv_value mem tlv.value
    else if tlv.type == 11
    then vhba_value tlv.value
    else if tlv.type == 12
    then swapped_dword 2 tlv.value
    else if tlv.type == 13
    then copied 2 8 tlv.value
    else if tlv.type == 102
    then bridge_value mem tlv.value
    else if tlv.type == 240
    then eoib_value tlv.value
    else ok (raw [])

-- ===== src/Fip/Descriptor.antt =====
-- src/vps/vfm/vfm_fip.c: the descriptor lists of received control packets, read into structures.
-- A structure is its memory; each descriptor's type decides how much is written there, since the
-- code does not compare it with the type that it expects. `OPEN_FCOE` leaves out the `vHBA` of a
-- keep alive.
use vfm.Base.{ℕ, ◌*◌, List, drop}
use vfm.Outcome.{Outcome, ok, ◌>>=◌}
use vfm.Fip.{dword}
use vfm.Fip.Memory.{Object, store}
use vfm.Fip.Tlv.{Memory, Gateway, get_tlv, get_tlv_value}

-- Reads one descriptor into the structure at an offset, and steps over it.
unfoldable pub read_field : Memory → ℕ → Object → List ℕ → Outcome (Object × List ℕ)
read_field mem at o ptr = do
  tlv ← get_tlv ptr
  value ← get_tlv_value mem tlv
  ok (store o at value.bytes, drop (tlv.length * dword) ptr)

-- `fcoe_conx_vfm_adv`, 16 bytes: `host_mac` at 0, `node_name` at 6, `max_recv` at 14
unfoldable pub fcoe_conx_discovery : Memory → Object → List ℕ → Outcome Object
unfolding read_field
fcoe_conx_discovery mem solicit ptr = do
  (solicit, ptr) ← read_field mem 0 solicit ptr
  (solicit, ptr) ← read_field mem 6 solicit ptr
  (solicit, ptr) ← read_field mem 14 solicit ptr
  ok solicit

-- `fcoe_vHBA_alive`: `host_mac` at 0
unfoldable pub fcoe_vhba_keep_alive : Memory → Object → List ℕ → Outcome Object
unfolding read_field
fcoe_vhba_keep_alive mem alive ptr = do (alive, ptr) ← read_field mem 0 alive ptr; ok alive

-- `fcoe_vHBA_dereg`, 36 bytes: `fcf_gw_mac` at 0, `switch_name` at 6, `hba` at 16
unfoldable pub fcoe_vhba_deregister : Memory → Object → List ℕ → Outcome Object
unfolding read_field
fcoe_vhba_deregister mem dereg ptr = do
  (dereg, ptr) ← read_field mem 0 dereg ptr
  (dereg, ptr) ← read_field mem 6 dereg ptr
  (dereg, ptr) ← read_field mem 16 dereg ptr
  ok dereg

-- `fcoe_bridge_vfm_adv`, 40 bytes: `bridge_mac` at 0, `node_name` at 6, `max_recv` at 14, `info`
-- at 16; beside it the gateways that `info` points at
unfoldable pub fcoe_bridgex_discovery : Memory → Object → List ℕ → Outcome (Object × List Gateway)
unfolding read_field
fcoe_bridgex_discovery mem adv ptr = do
  (adv, ptr) ← read_field mem 0 adv ptr
  (adv, ptr) ← read_field mem 6 adv ptr
  (adv, ptr) ← read_field mem 14 adv ptr
  tlv ← get_tlv ptr
  info ← get_tlv_value mem tlv
  ok (store adv 16 info.bytes, info.gw_arr)

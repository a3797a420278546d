-- ===== src/Db/Rows.antt =====
-- The rows that src/vps/vfm/db reads into structures: a virtual adapter of
-- src/vps/vfm/db/vfmdb_vadapter.c, an IO module of src/vps/vfm/db/vfmdb_iomodule.c, a virtual fabric
-- of src/vps/vfm/db/vfmdb_vfabric.c and a gateway of src/vps/vfm/db/db_access.c.
use vfm.Base.{ℕ, List, [], ◌∷◌, ◌++◌, if◌then◌else◌}
use Prim.Native.String.{String}
use vfm.Outcome.{Outcome, ok, ◌>>=◌}
use vfm.Fip.Memory.{take_exact, write_into}
use vfm.Db.{Libc, c_string}
use vfm.Db.Column.{same_column}

-- the fields of `vfm_vadapter_attr_t` that a row fills
pub record VadapterRow : Type 0 where
  pub id : ℕ
  pub io_module_id : ℕ
  pub vfabric_id : ℕ
  pub name : List ℕ
  pub desc : List ℕ
  pub init_type : ℕ
  pub protocol : ℕ

-- `vpsdb_io_module_t`, less its id, which `process_io_module` does not fill
pub record IoModule : Type 0 where
  pub name : List ℕ
  pub type : ℕ
  pub mac : List ℕ
  pub guid : List ℕ
  pub num_vhba : ℕ
  pub num_vnic : ℕ
  pub slot : ℕ
  pub port : ℕ
  pub supported_speed : ℕ

-- the column names and values that a callback gets
abbrev pub Columns : Type 0
Columns = List (String × List ℕ)

-- `strcpy(array, value)`: a value ends with a zero byte.
unfoldable pub strcpy : (array : List ℕ) → (value : List ℕ) → Outcome (List ℕ)
unfolding c_string write_into
strcpy array value = c_string (value ++ 0 ∷ []) >>= λ s. write_into 0 (s ++ 0 ∷ []) array

-- `memcpy(array, value, n)`
unfoldable pub memcpy : (n : ℕ) → (value : List ℕ) → Outcome (List ℕ)
unfolding take_exact
memcpy n value = take_exact n (value ++ 0 ∷ [])

-- a row's columns in turn
unfoldable pub fill : {A : Type 0} → (String × List ℕ → A → Outcome A) → Columns → A → Outcome A
fill column [] a = ok a
fill column (c ∷ cols) a = column c a >>= λ b. fill column cols b

module _ (libc : Libc) where
  unfoldable pub vadapter_column : String × List ℕ → VadapterRow → Outcome VadapterRow
  unfolding same_column strcpy
  vadapter_column (col, v) a =
      if same_column col "id"
      then ok (record a { id = libc.atoi v })
      else if same_column col "io_module_id"
      then ok (record a { io_module_id = libc.atoi v })
      else if same_column col "vfabric_id"
      then ok (record a { vfabric_id = libc.atoi v })
      else if same_column col "name"
      then (strcpy a.name v >>= λ s. ok (record a { name = s }))
      else if same_column col "desc"
      then (strcpy a.desc v >>= λ s. ok (record a { desc = s }))
      else if same_column col "init_type"
      then ok (record a { init_type = libc.atoi v })
      else if same_column col "protocol"
      then ok (record a { protocol = libc.atoi v })
      else ok a

  unfoldable pub io_module_column : String × List ℕ → IoModule → Outcome IoModule
  unfolding same_column memcpy
  io_module_column (col, v) m =
      if same_column col "name"
      then (memcpy 8 v >>= λ s. ok (record m { name = s }))
      else if same_column col "type"
      then ok (record m { type = libc.atoi v })
      else if same_column col "mac"
      then (memcpy 6 v >>= λ s. ok (record m { mac = s }))
      else if same_column col "guid"
      then (memcpy 8 v >>= λ s. ok (record m { guid = s }))
      else if same_column col "num_vhba"
      then ok (record m { num_vhba = libc.atoi v })
      else if same_column col "num_vnic"
      then ok (record m { num_vnic = libc.atoi v })
      else if same_column col "slot"
      then ok (record m { slot = libc.atoi v })
      else if same_column col "port"
      then ok (record m { port = libc.atoi v })
      else if same_column col "supported_speed"
      then ok (record m { supported_speed = libc.atoi v })
      else ok m

  -- The array grows by one structure; `fresh` is what the memory for it holds before.
  unfoldable pub process_vadapter :
      (fresh : VadapterRow) → Columns → List VadapterRow → Outcome (ℕ × List VadapterRow)
  unfolding fill vadapter_column
  process_vadapter fresh cols rsc = fill vadapter_column cols fresh >>= λ a. ok (0, rsc ++ a ∷ [])

  unfoldable pub process_io_module :
      (fresh : IoModule) → Columns → List IoModule → Outcome (ℕ × List IoModule)
  unfolding fill io_module_column
  process_io_module fresh cols rsc = fill io_module_column cols fresh >>= λ m. ok (0, rsc ++ m ∷ [])

-- ===== src/Db/Unread.antt =====
-- src/vps/vfm/db/vfmdb_vadapter.c and src/vps/vfm/db/vfmdb_bridge_device.c: rows that a selection
-- cannot read.
use vfm.Base.{
  ℕ, suc, ◌+◌, ◌<◌, ◌≡◌, ◌⊎◌, inl, inr, ap, ◌∙◌, arith, true, none, some, List, [], ◌∷◌, ◌++◌,
  length, length-append, lt→ltb,
}
use Prim.Native.String.{String}
use vfm.Outcome.{Outcome, ok, err, fault, ◌>>=◌}
use vfm.Fip.Memory.{take_exact-fault}
use vfm.Db.{
  Libc, Sqlite, Row, Stmt, text, chars, sqlite_done, vfmdb_prepare_query, row_values, process_rows,
  process_row,
}
use vfm.Db.Column.{same_column}
use vfm.Db.Rows.{Columns, VadapterRow, memcpy, fill, vadapter_column}
use vfm.Db.Where.{Bit, add_query_parameters, add_bits}
use vfm.Db.Adapters.{
  Adapter, populate_vadapter_ex, process_vadapter_inventory, populate_rows,
  populate_vadapter_information,
}
use vfm.Db.Bridges.{
  Bridge, BridgeBits, no_bridge, bridge_column, process_bridge, populate_bridge_information,
  bridge_conditions, formats, guids,
}

module _ {Store : Type 0} (sql : Sqlite Store) (libc : Libc) where
  abbrev pub unbound : List ℕ → Stmt
  unbound query = record { query = query; bound = [] }

  -- the two queries of a selection, with its conditions
  abbrev pub count_query : List ℕ → List ℕ
  count_query conditions = libc.sprintf (
      text "select count(*) from vfm_vadapter_attr "
      ∷ chars (conditions ++ b';' ∷ [])
      ∷ text " "
      ∷ [])

  abbrev pub select_query : List ℕ → List ℕ
  select_query conditions =
      libc.sprintf
        (text "select * from vfm_vadapter_attr " ∷ chars (conditions ++ b';' ∷ []) ∷ text " " ∷ [])

  pointer_unset :
      (db : Store) (a : Adapter)
      → (a.row.protocol ≡ 1) ⊎ (a.row.protocol ≡ 3)
      → populate_vadapter_ex sql libc db none a ≡ fault
  unfolding populate_vadapter_ex
  pointer_unset db a (inl e) = rw e
  pointer_unset db a (inr e) = rw e

  rows_fault :
      (db after : Store) (fresh : Adapter) (conditions : List ℕ) (row : Row) (rows : List Row)
      (n final : ℕ) (r : VadapterRow)
      → sql.prepares db (select_query conditions) ≡ true
      → sql.run db (unbound (select_query conditions))
        ≡ record { rows = row ∷ rows; final = final; after = after }
      → fill (vadapter_column libc) (row_values row) fresh.row ≡ ok r
      → (r.protocol ≡ 1) ⊎ (r.protocol ≡ 3)
      → populate_rows sql libc db fresh (conditions ++ b';' ∷ []) (suc n) ≡ fault
  unfolding populate_rows process_vadapter_inventory process_rows process_row
  rows_fault db after fresh conditions row rows n final r p ran filled protocol = rw (
    p,
    ran,
    lt→ltb 0 (suc n) (omega arith),
    filled,
    pointer_unset db (record fresh { row = r }) protocol,
  )

  -- A selection of which the first row is an adapter of an Ethernet or Fibre Channel fabric reads a
  -- bitmask for it through a pointer that was never set, whatever was to be selected.
  pub protocol_adapter_faults :
      (db : Store) (fresh : Adapter) (bits : List Bit) (conditions : List ℕ) (set : ℕ)
      (col : String) (v : List ℕ) (cols row : Row) (rows : List Row) (n : ℕ) (r : VadapterRow)
      (db₁ db₂ : Store) (final : ℕ)
      → add_bits (add_query_parameters libc) bits [] 0 ≡ ok (conditions, set)
      → sql.prepares db (count_query conditions) ≡ true
      → sql.run db (unbound (count_query conditions))
        ≡ record { rows = ((col, some v) ∷ cols) ∷ []; final = sqlite_done; after = db₁ }
      → libc.atoi v ≡ suc n
      → sql.prepares db (select_query conditions) ≡ true
      → sql.run db (unbound (select_query conditions))
        ≡ record { rows = row ∷ rows; final = final; after = db₂ }
      → fill (vadapter_column libc) (row_values row) fresh.row ≡ ok r
      → (r.protocol ≡ 1) ⊎ (r.protocol ≡ 3)
      → populate_vadapter_information sql libc db fresh bits ≡ fault
  unfolding populate_vadapter_information
  protocol_adapter_faults db fresh bits conditions set col v cols row rows n r db₁ db₂ final e p₁ r₁
        counted p₂ r₂ filled protocol =
      rw (e, p₁, r₁)
        (ap (populate_rows sql libc db fresh (conditions ++ b';' ∷ [])) counted
          ∙ rows_fault db db₂ fresh conditions row rows n final r p₂ r₂ filled protocol)

bind_step :
    {A : Type 0} (o : Outcome A) (f g : A → Outcome A) (r : Outcome A) (b : A)
    → ((x : A) → f x ≡ ok b → g x ≡ r)
    → (o >>= f) ≡ ok b
    → (o >>= g) ≡ r
bind_step (ok x) f g r b next h = next x h
bind_step (err e) f g r b next h = cc
bind_step fault f g r b next h = cc

fill-append :
    {A : Type 0} (column : String × List ℕ → A → Outcome A) (front back : Columns) (a b : A)
    → fill column front a ≡ ok b
    → fill column (front ++ back) a ≡ fill column back b
unfolding fill
fill-append column [] back a b e = cc
fill-append column (c ∷ front) back a b e =
    bind_step (column c a) (fill column front) (fill column (front ++ back)) (fill column back b) b
      (λ x h. fill-append column front back x b h) e

short_text : (n : ℕ) (v : List ℕ) → length v + 1 < n → memcpy n v ≡ fault
unfolding memcpy
short_text n v h = take_exact-fault n (v ++ 0 ∷ []) (omega (arith, length-append v (0 ∷ [])))

module _ {Store : Type 0} (sql : Sqlite Store) (libc : Libc) (fresh : List ℕ) where
  -- A selection that finds a bridge device first whose description is shorter than 63 characters
  -- copies 64 from it, past its end; what was to be selected does not matter.
  pub short_description_overread :
      (db after : Store) (attr : Bridge) (bits : BridgeBits) (query : List ℕ) (set : ℕ)
      (stmt : Stmt) (front back : Columns) (v : List ℕ) (row : Row) (rows : List Row) (b : Bridge)
      (final : ℕ)
      → add_bits
          (add_query_parameters libc)
          (bridge_conditions bits attr)
          (libc.sprintf (text "select * from vfm_bridge_device " ∷ []))
          0
        ≡ ok (query, set)
      → vfmdb_prepare_query sql db (query ++ b';' ∷ []) (formats libc bits) (guids bits attr)
        ≡ ok (some stmt)
      → sql.run db stmt ≡ record { rows = row ∷ rows; final = final; after = after }
      → row_values row ≡ front ++ ("desc", v) ∷ back
      → fill bridge_column front no_bridge ≡ ok b
      → length v + 1 < 64
      → populate_bridge_information sql libc fresh db attr bits ≡ fault
  unfolding populate_bridge_information process_rows process_row process_bridge bridge_column
      same_column fill
  short_description_overread db after attr bits query set stmt front back v row rows b final e p r
        columns filled short =
      rw (
        e,
        p,
        r,
        columns,
        fill-append bridge_column front (("desc", v) ∷ back) no_bridge b filled,
        short_text 64 v short,
      )

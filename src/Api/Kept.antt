-- ===== src/Api/Kept.antt =====
-- The handlers of src/vps/vfm/vfmapi_vadapter.c, src/vps/vfm/vfmapi_vfabric.c and
-- src/vps/vfm/vfmapi_bridge_device.c that do not activate, and what they leave alone.
use vfm.Base.{ℕ, ◌≡◌, refl, arith, Option, none, some, List, []}
use Prim.Native.String.{String}
use vfm.Outcome.{Outcome, ok, err, fault, ◌>>=◌}
use vfm.Api.Tlv.{word_of}
use vfm.Api.Handlers.{get_fresh, word_packet}
use vfm.World.{World}
use vfm.Db.{Libc, Sqlite, Stmt, vfmdb_execute_query, without_rows, run_statement}
use vfm.Db.Vadapter.{
  Attr, ResourceType, db_vadapter, db_vfabric, insert_vadapter, add_vadapter, add_vfabric,
  vpsdb_read, vpsdb_update, vpsdb_add_resource,
}
use vfm.Api.{ResPacket}
use vfm.Api.Server.{Handler}
use vfm.Api.Table.{with_world}
use vfm.Api.Handlers.{process_vfm_create_vadapter, process_vfm_create_vfabric}
use vfm.Db.Adapters.{Adapter}
use vfm.Api.Select.{
  process_vfm_vadapter_select_inventory, process_vfm_vfabric_select_inventory, bridges_selected,
}
use vfm.Api.Edit.{
  process_vfm_edit_vadapter, process_vfm_edit_vfabric, edit_vfabric, edit_en,
  process_vfm_edit_en_attr, vpsdb_edit_resource, run_update, where_id, vadapter_changes,
  vfabric_changes,
}
use vfm.Db.Where.{add_bits, add_update_query_parameters}
use vfm.Api.Inventory.{Abi}
use vfm.Api.Structs.{Layout, EnBits}

-- A call that succeeds, and what is behind it.
behind :
    {A B : Type 0} {P : Type 0} (m : Outcome A) (f : A → Outcome B) (r : B)
    → ((a : A) → f a ≡ ok r → P)
    → (m >>= f) ≡ ok r
    → P
behind (ok a) f r next e = next a e
behind (err _) f r next e = absurd cc
behind fault f r next e = absurd cc

module _ {Store : Type 0} (sql : Sqlite Store) (libc : Libc) where
  abbrev lifted : Sqlite (Store × World)
  lifted = with_world sql

  run-keeps :
      (s : Store × World) (stmt : Stmt) (r : ℕ × (Store × World))
      → run_statement lifted s stmt ≡ ok r
      → r.1.1 ≡ s.1
  unfolding run_statement without_rows
  run-keeps s stmt r e = ground arith

  execute-keeps :
      {A : Type 0} (s : Store × World) (stmt : Stmt)
      (sql_cb : List (String × List ℕ) → A → Outcome (ℕ × A)) (arg : A)
      (r : ℕ × A × (Store × World))
      → vfmdb_execute_query lifted s stmt sql_cb arg ≡ ok r
      → r.2.1 ≡ s.1
  unfolding vfmdb_execute_query
  execute-keeps s stmt sql_cb arg r e = ground arith

  insert-keeps :
      (s : Store × World) (a : Attr) (r : ℕ × Attr × (Store × World))
      → insert_vadapter lifted libc s a ≡ ok r
      → r.2.1 ≡ s.1
  unfolding insert_vadapter
  insert-keeps s a r e = ground (arith, run-keeps s)

  add_vadapter-keeps :
      (s : Store × World) (a : Attr) (r : ℕ × Attr × (Store × World))
      → add_vadapter lifted libc s a ≡ ok r
      → r.2.1 ≡ s.1
  unfolding add_vadapter
  add_vadapter-keeps s a r e = grind (arith, execute-keeps s, insert-keeps)

  add_vfabric-keeps :
      (s : Store × World) (a : Attr) (r : ℕ × Attr × (Store × World))
      → add_vfabric lifted libc s a ≡ ok r
      → r.2.1 ≡ s.1
  unfolding add_vfabric vpsdb_read vpsdb_update
  add_vfabric-keeps s a r e = ground arith

  add-keeps :
      (type : ResourceType) (s : Store × World) (a : Attr) (r : ℕ × Attr × (Store × World))
      → vpsdb_add_resource lifted libc type s a ≡ ok r
      → r.2.1 ≡ s.1
  unfolding vpsdb_add_resource
  add-keeps db_vadapter s a r e = add_vadapter-keeps s a r e
  add-keeps db_vfabric s a r e = add_vfabric-keeps s a r e

  -- what a handler leaves alone
  abbrev pub KeepsWorld : Handler (Store × World) → Type 0
  KeepsWorld h =
      (buff : List ℕ) (pos : ℕ) (s : Store × World) (r : ℕ × ResPacket × (Store × World))
      → h buff pos s ≡ ok r
      → r.2.1 ≡ s.1

  pub create_vadapter-keeps : KeepsWorld (process_vfm_create_vadapter lifted libc)
  unfolding process_vfm_create_vadapter
  create_vadapter-keeps buff pos s r e = ground (arith, add-keeps db_vadapter s)

  pub create_vfabric-keeps :
      (garbage : ℕ) → KeepsWorld (process_vfm_create_vfabric lifted libc garbage)
  unfolding process_vfm_create_vfabric
  create_vfabric-keeps garbage buff pos s r e = ground (arith, add-keeps db_vfabric s)

  update-keeps :
      (s : Store × World) (stmt : Option Stmt) (r : ℕ × (Store × World))
      → run_update lifted libc s stmt ≡ ok r
      → r.1.1 ≡ s.1
  unfolding run_update
  update-keeps s none r e = ground arith
  update-keeps s (some stmt) r e = ground (arith, run-keeps s stmt)

  edit-keeps :
      (type : ResourceType) (s : Store × World) (where_clause : List ℕ) (r : ℕ × (Store × World))
      → vpsdb_edit_resource lifted libc type s where_clause ≡ ok r
      → r.1.1 ≡ s.1
  unfolding vpsdb_edit_resource
  edit-keeps type s where_clause r e = ground (arith, update-keeps s)

  -- the end of a handler that edits
  reported-keeps :
      (s : Store × World) (m : Outcome (ℕ × (Store × World))) (r : ℕ × ResPacket × (Store × World))
      → ((x : ℕ × (Store × World)) → m ≡ ok x → x.1.1 ≡ s.1)
      → (m >>= λ (code, after). ok (0, word_packet code, after)) ≡ ok r
      → r.2.1 ≡ s.1
  reported-keeps s (ok x) r k e = let same = k x refl in ground arith
  reported-keeps s (err _) r k e = absurd cc
  reported-keeps s fault r k e = absurd cc

  module _ (abi : Abi) (layout : Layout) where
    pub edit_vadapter-keeps : KeepsWorld (process_vfm_edit_vadapter lifted libc abi layout)
    unfolding process_vfm_edit_vadapter
    edit_vadapter-keeps buff pos s r e =
        behind (get_fresh 4 buff pos) _ r
          (λ a. behind (word_of a.0) _ r λ id.
            behind (get_fresh layout.vadapter_bits_size buff a.1) _ r λ b.
              behind (get_fresh abi.vadapter_attr_size buff b.1) _ r λ c.
                behind
                  (add_bits (add_update_query_parameters libc)
                    (vadapter_changes (layout.vadapter_bits b.0) (layout.vadapter_attr c.0)
                      (layout.vadapter_state c.0))
                    [] 0)
                  _ r
                  λ q.
                    reported-keeps s
                      (vpsdb_edit_resource lifted libc db_vadapter s
                        (where_id lifted libc q.0 q.1 " where id = " id))
                      r (edit-keeps db_vadapter s _))
          e

    edit_vfabric-keeps :
        (s : Store × World) (id : ℕ) (query : List ℕ × ℕ) (r : ℕ × (Store × World))
        → edit_vfabric lifted libc abi layout s id query ≡ ok r
        → r.1.1 ≡ s.1
    unfolding edit_vfabric
    edit_vfabric-keeps s id query r e = ground (arith, edit-keeps db_vfabric s)

    pub edit_vfabric-handler-keeps : KeepsWorld (process_vfm_edit_vfabric lifted libc abi layout)
    unfolding process_vfm_edit_vfabric
    edit_vfabric-handler-keeps buff pos s r e =
        behind (get_fresh 4 buff pos) _ r
          (λ a. behind (word_of a.0) _ r λ id.
            behind (get_fresh layout.vfabric_bits_size buff a.1) _ r λ b.
              behind (get_fresh abi.vfabric_attr_size buff b.1) _ r λ c.
                let changes : Outcome (List ℕ × ℕ) =
                  add_bits (add_update_query_parameters libc)
                    (vfabric_changes (layout.vfabric_bits b.0) (layout.vfabric_attr c.0)) [] 0 in
                reported-keeps s (changes >>= edit_vfabric lifted libc abi layout s id) r
                  λ x. behind changes _ x λ q. edit_vfabric-keeps s id q x)
          e

    edit_en-keeps :
        (s : Store × World) (id : ℕ) (b : EnBits) (attr : List ℕ) (r : ℕ × (Store × World))
        → edit_en lifted libc abi layout s id b attr ≡ ok r
        → r.1.1 ≡ s.1
    unfolding edit_en
    edit_en-keeps s id b attr r e = grind (arith, update-keeps s)

    pub edit_en-handler-keeps : KeepsWorld (process_vfm_edit_en_attr lifted libc abi layout)
    unfolding process_vfm_edit_en_attr
    edit_en-handler-keeps buff pos s r e =
        behind (get_fresh 4 buff pos) _ r
          (λ a. behind (word_of a.0) _ r λ id.
            behind (get_fresh layout.en_bits_size buff a.1) _ r λ b.
              behind (get_fresh layout.en_attr_size buff b.1) _ r λ c.
                reported-keeps s (edit_en lifted libc abi layout s id (layout.en_bits b.0) c.0) r
                  (edit_en-keeps s id (layout.en_bits b.0) c.0))
          e

  module _ (abi : Abi) (layout : Layout) (fresh : Adapter) (fresh_module : List ℕ) where
    pub select_vadapter-keeps :
        KeepsWorld (process_vfm_vadapter_select_inventory abi layout lifted libc fresh fresh_module)
    unfolding process_vfm_vadapter_select_inventory
    select_vadapter-keeps buff pos s r e = ground arith

    pub select_vfabric-keeps :
        KeepsWorld (process_vfm_vfabric_select_inventory abi layout lifted libc fresh fresh_module)
    unfolding process_vfm_vfabric_select_inventory
    select_vfabric-keeps buff pos s r e = ground arith

    pub bridges-keeps : KeepsWorld (bridges_selected abi layout lifted libc fresh fresh_module)
    unfolding bridges_selected
    bridges-keeps buff pos s r e = ground arith

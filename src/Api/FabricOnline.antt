-- ===== src/Api/FabricOnline.antt =====
-- `process_vfm_vfabric_online` of src/vps/vfm/vfmapi_vfabric.c: the adapters of a fabric are activated
-- one after another, and what the client learns where there is none.
use vfm.Base.{
  ℕ, ◌≡◌, ap, ◌∙◌, none, some, List, [], ◌∷◌, length, IsWord32, of_le32-le32, ◌==◌, if◌then◌else◌,
  arith,
}
use vfm.Outcome.{Outcome, ok, ◌>>=◌}
use vfm.World.{Config, Env, World}
use vfm.Db.{Libc, Sqlite}
use vfm.Db.Rows.{VadapterRow, process_vadapter}
use vfm.Db.Fabric.{select}
use vfm.Api.{ResPacket}
use vfm.Api.Tlv.{word_of}
use vfm.Api.Layout.{tlvs}
use vfm.Api.Request.{int_arg, vfabric_online_request}
use vfm.Api.Sizes.{request_hdr, length-request_hdr}
use vfm.Api.ReadBack.{unpack_tlv-reads}
use vfm.Api.Server.{Handler, Handlers}
use vfm.Api.Handlers.{get_fresh, word_packet}
use vfm.Api.Inventory.{Abi}
use vfm.Api.Client.{vfm_vfabric_online}
use vfm.Api.Call.{served}
use vfm.Api.Activate.{message_of, fabric_online_refused}
use vfm.Api.Online.{Fresh, select_where, activate_vadapter}

-- `VFM_ERROR_VFABRIC`
abbrev pub vfm_error_vfabric : ℕ
vfm_error_vfabric = 4

module _ {Store : Type 0} (sql : Sqlite Store) (libc : Libc) (cfg : Config) (env : Env)
    (padding : ℕ × ℕ) (fresh : Fresh) where
  -- The code of the last activation is the result.
  unfoldable pub activate_each : World → Store → List VadapterRow → (err : ℕ) → Outcome (ℕ × World)
  unfolding activate_vadapter
  activate_each w db [] err = ok (err, w)
  activate_each w db (v ∷ vs) err =
      activate_vadapter sql libc cfg env padding fresh w db v.id >>= λ (rc, after).
      activate_each after db vs rc

  unfoldable pub activate_vfabric : World → Store → ℕ × List VadapterRow → Outcome (ℕ × World)
  unfolding activate_each
  activate_vfabric w db (rc, []) = ok ((if rc == 0 then vfm_error_vfabric else rc), w)
  activate_vfabric w db (rc, v ∷ vs) = if rc == 0 then activate_each w db (v ∷ vs) 0 else ok (rc, w)

  abbrev pub attached : Store → ℕ → Outcome (ℕ × List VadapterRow)
  attached db id =
      select sql libc db
        (select_where sql libc cfg env padding fresh
          "select * from vfm_vadapter_attr where vfabric_id = " id)
        (process_vadapter libc fresh.vadapter) []

  unfoldable pub process_vfm_vfabric_online : Handler (Store × World)
  unfolding get_fresh word_of select process_vadapter activate_vfabric word_packet
  process_vfm_vfabric_online buff pos (db, w) = get_fresh 4 buff pos >>= λ (bytes, _).
      word_of bytes >>= λ id. attached db id >>= λ found.
      activate_vfabric w db found >>= λ (rc, after). ok (rc, word_packet rc, (db, after))

  abbrev handled : ℕ → Store → World → Outcome (ℕ × ResPacket × (Store × World))
  handled id db w = attached db id >>= λ found.
      activate_vfabric w db found >>= λ (rc, next). ok (rc, word_packet rc, (db, next))

  handler_reads :
      (id : ℕ) (db : Store) (w : World)
      → IsWord32 id
      → process_vfm_vfabric_online (message_of (vfabric_online_request id)) 8 (db, w)
        ≡ handled id db w
  unfolding process_vfm_vfabric_online get_fresh tlvs vfabric_online_request
  handler_reads id db w small =
      let r = vfabric_online_request id in
      rw
        (unpack_tlv-reads (int_arg id) 8 (request_hdr r) [] (length-request_hdr r) (omega arith)
          (omega arith))
        (ap (λ x. handled x db w) (of_le32-le32 id small))

  -- The activation of a fabric without adapters sends nothing, and the client's call returns
  -- `VFM_ERROR_VFABRIC`.
  pub empty_fabric_refused :
      (abi : Abi) (h : Handlers (Store × World)) (malloc : ℕ → List ℕ) (id : ℕ) (db : Store)
      (w : World)
      → ((n : ℕ) → length (malloc n) ≡ n)
      → ((buff : List ℕ) (pos : ℕ) (s : Store × World)
          → h.vfabric_online buff pos s ≡ process_vfm_vfabric_online buff pos s)
      → IsWord32 id
      → attached db id ≡ ok (0, [])
      → (process_vfm_vfabric_online (message_of (vfabric_online_request id)) 8 (db, w)
          ≡ ok (vfm_error_vfabric, word_packet vfm_error_vfabric, (db, w)))
        × (vfm_vfabric_online abi (served h malloc (db, w)) none id
            ≡ ok (some 3, vfm_error_vfabric))
  unfolding activate_vfabric
  empty_fabric_refused abi h malloc id db w sized runs small e =
      let handles : process_vfm_vfabric_online (message_of (vfabric_online_request id)) 8 (db, w)
          ≡ ok (vfm_error_vfabric, word_packet vfm_error_vfabric, (db, w)) =
        handler_reads id db w small ∙ rw e in
      (
        handles,
        fabric_online_refused h malloc sized abi id vfm_error_vfabric vfm_error_vfabric (db, w)
            (db, w) (omega arith) (λ x. omega arith)
            (runs (message_of (vfabric_online_request id)) 8 (db, w) ∙ handles),
      )

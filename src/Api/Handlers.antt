-- ===== src/Api/Handlers.antt =====
-- src/vps/vfm/vfmapi_vadapter.c and src/vps/vfm/vfmapi_vfabric.c: the handlers that create a
-- virtual adapter and a virtual fabric.
use vfm.Base.{ℕ, List, length, le32, replicate, ltb, ◌==◌, if◌then◌else◌}
use vfm.Outcome.{Outcome, ok, fault, ◌>>=◌}
use vfm.Db.{Libc, Sqlite}
use vfm.Db.Vadapter.{db_vadapter, db_vfabric, vpsdb_add_resource}
use vfm.Api.{ResPacket, object}
use vfm.Api.Tlv.{get_api_tlv, unpack_tlv, word_of}
use vfm.Api.Server.{Handler}

-- a result of four bytes
unfoldable pub word_packet : ℕ → ResPacket
word_packet v = record { content = object (le32 v); size = 4; count = 0 }

-- `get_api_tlv` to an object of some size that nothing was written to: what is written of it
unfoldable pub get_fresh : (size : ℕ) → (buff : List ℕ) → (ret_pos : ℕ) → Outcome (List ℕ × ℕ)
unfolding unpack_tlv
get_fresh size buff pos =
    unpack_tlv buff pos >>= λ (v, next). if ltb size (length v) then fault else ok (v, next)

module _ {Store : Type 0} (sql : Sqlite Store) (libc : Libc) where
  -- The attributes are cleared first. The response holds the new id, or the error code.
  unfoldable pub process_vfm_create_vadapter : Handler Store
  unfolding get_api_tlv word_of vpsdb_add_resource word_packet
  process_vfm_create_vadapter buff pos db =
      get_api_tlv (replicate 64 0) buff pos >>= λ (name, at_desc).
      get_api_tlv (replicate 64 0) buff at_desc >>= λ (desc, at_protocol).
      get_api_tlv (replicate 4 0) buff at_protocol >>= λ (bytes, _). word_of bytes >>= λ protocol.
      vpsdb_add_resource sql libc db_vadapter db
        (record { id = 0; name = name; desc = desc; protocol = protocol })
      >>= λ (rc, attr, after). ok (rc, word_packet (if rc == 0 then attr.id else rc), after)

  -- The attributes are not cleared: `garbage` is the id that lies on the stack. The result of the
  -- addition is not looked at.
  unfoldable pub process_vfm_create_vfabric : (garbage : ℕ) → Handler Store
  unfolding get_fresh word_of vpsdb_add_resource word_packet
  process_vfm_create_vfabric garbage buff pos db = get_fresh 64 buff pos >>= λ (name, at_desc).
      get_fresh 64 buff at_desc >>= λ (desc, at_protocol).
      get_fresh 4 buff at_protocol >>= λ (bytes, _). word_of bytes >>= λ protocol.
      vpsdb_add_resource sql libc db_vfabric db
        (record { id = garbage; name = name; desc = desc; protocol = protocol })
      >>= λ (_, attr, after). ok (0, word_packet attr.id, after)

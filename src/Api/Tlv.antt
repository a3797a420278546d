-- ===== src/Api/Tlv.antt =====
-- src/vps/vfm/vfmapi_common.c and `unpack_tlv` of src/vps/vfm/vfmimpl_unpack.c: a TLV is written
-- into a message, and read from one. A message that is read is the bytes that were received.
use vfm.Base.{ℕ, ◌+◌, ◌%◌, List, [], ◌∷◌, ◌++◌, length, le32, of_le16, of_le32}
use vfm.Outcome.{Outcome, ok, fault, ◌>>=◌}
use vfm.Fip.Memory.{slice, take_exact, write_into}
use vfm.Api.{ApiHdr, Arg}

-- A message under construction, and the offset that the next write goes to.
pub record Cursor : Type 0 where
  pub message : List ℕ
  pub offset : ℕ

-- `memcpy(offset, bytes, size); offset += size;`
unfoldable pub append_bytes : List ℕ → Cursor → Outcome Cursor
append_bytes bs cur = write_into cur.offset bs cur.message >>= λ m.
    ok (record { message = m; offset = cur.offset + length bs })

-- The type is passed as a `uint8_t`.
unfoldable pub create_api_tlv : Arg → Cursor → Outcome Cursor
unfolding append_bytes
create_api_tlv a cur = append_bytes (le32 (a.type % 256) ++ le32 a.len) cur >>= λ c.
    take_exact a.len a.value >>= λ v. append_bytes v c

unfoldable pub put_all : List Arg → Cursor → Outcome Cursor
unfolding create_api_tlv
put_all [] cur = ok cur
put_all (a ∷ args) cur = create_api_tlv a cur >>= λ c. put_all args c

unfoldable pub word_of : List ℕ → Outcome ℕ
word_of (a ∷ b ∷ c ∷ d ∷ []) = ok (of_le32 a b c d)
word_of _ = fault

-- a `uint32_t` copied from an offset
unfoldable pub word_at : ℕ → List ℕ → Outcome ℕ
unfolding slice word_of
word_at off m = slice off 4 m >>= word_of

unfoldable pub read_hdr : List ℕ → Outcome ApiHdr
read_hdr (m ∷ o ∷ r ∷ s ∷ a ∷ b ∷ c ∷ d ∷ []) =
    ok (record { mod_id = m; opcode = o; reserved = of_le16 r s; length = of_le32 a b c d })
read_hdr _ = fault

-- The size that was received is not looked at.
unfoldable pub read_api_ctrl_hdr : List ℕ → (ret_pos : ℕ) → Outcome (ApiHdr × ℕ)
unfolding slice read_hdr
read_api_ctrl_hdr buff pos = slice pos 8 buff >>= read_hdr >>= λ h. ok (h, (pos + 8) % 4294967296)

-- The value is copied over the object that `op_arg` points to, whatever the length says. A copy
-- that leaves the object is a fault.
unfoldable pub get_api_tlv : (op_arg buff : List ℕ) → (ret_pos : ℕ) → Outcome (List ℕ × ℕ)
unfolding word_at slice write_into
get_api_tlv op_arg buff pos = word_at pos buff >>= λ _. word_at (pos + 4) buff >>= λ len.
    slice (pos + 8) len buff >>= λ v.
    write_into 0 v op_arg >>= λ object. ok (object, (pos + (8 + len)) % 4294967296)

-- The value is copied to memory of its own size.
unfoldable pub unpack_tlv : (buff : List ℕ) → (ret_pos : ℕ) → Outcome (List ℕ × ℕ)
unfolding word_at slice
unpack_tlv buff pos = word_at pos buff >>= λ _. word_at (pos + 4) buff >>= λ len.
    slice (pos + 8) len buff >>= λ v. ok (v, (pos + (8 + len)) % 4294967296)

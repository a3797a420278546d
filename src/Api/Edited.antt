-- ===== src/Api/Edited.antt =====
-- `vfm_vadapter_edit_general_attr`, from the client's structures to the database and back.
use vfm.Base.{
  ℕ, ◌+◌, ◌≡◌, ap, ◌∙◌, sym, arith, List, [], ◌++◌, length, take_all, append_assoc, IsWord32,
}
use vfm.Outcome.{ok}
use vfm.Api.Tlv.{unpack_tlv}
use vfm.Api.Layout.{tlv_bytes}
use vfm.Api.Request.{Request, object_arg}
use vfm.Api.ReadBack.{unpack_tlv-reads}
use vfm.Api.Server.{Handlers}
use vfm.Api.Structs.{Layout}

-- An object behind a prefix is unpacked whole.
pub object_read :
    (t pos : ℕ) (value pre more : List ℕ)
    → length pre ≡ pos
    → IsWord32 (pos + (8 + length value))
    → unpack_tlv (pre ++ (tlv_bytes (object_arg t value) ++ more)) pos
      ≡ ok (value, pos + (8 + length value))
object_read t pos value pre more e w =
    unpack_tlv-reads (object_arg t value) pos pre more e (omega arith) w
    ∙ ap (λ v. ok (v, pos + (8 + length value))) (take_all (length value) value (omega arith))

-- Three TLVs behind a header.
pub in_turn :
    (hd a b c : List ℕ)
    → (hd ++ (a ++ (b ++ (c ++ []))) ≡ (hd ++ a) ++ (b ++ (c ++ [])))
      × (hd ++ (a ++ (b ++ (c ++ []))) ≡ (hd ++ a ++ b) ++ (c ++ []))
in_turn hd a b c =
    let second = sym (append_assoc hd a (b ++ (c ++ []))) in
    (second, second ∙ sym (append_assoc (hd ++ a) b (c ++ [])))

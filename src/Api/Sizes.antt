-- ===== src/Api/Sizes.antt =====
-- src/vps/vfm/vfmapi/: the size that each client function computes, against what it writes.
use vfm.Base.{
  ℕ, zero, suc, ◌+◌, ◌-◌, ◌≤◌, ◌<◌, ◌≡◌, refl, arith, List, [], ◌∷◌, ◌++◌, length, replicate, le32,
  drop, length-replicate, length-append, length-drop, append-nil,
}
use vfm.Outcome.{ok, fault}
use vfm.Api.{
  ApiModule, vadapter, bridge_device, vfabric, vfm_create, vfm_edit, vfm_query_inventory, mod_id,
  opcode, create_ctrl_hdr, ctrl_hdr_bytes, Arg,
}
use vfm.Api.Tlv.{append_bytes}
use vfm.Api.Layout.{
  IsBacked, tlv_bytes, tlvs, length-tlv_bytes, put_all-fits, put_all-overruns, append_bytes-fits,
}
use vfm.Api.Request.{
  Request, object_arg, int_arg, name_arg, build_message, vadapter_create_request,
  vadapter_edit_request, vadapter_select_request, vadapter_destroy_request,
  vadapter_edit_protocol_request, vadapter_online_request, vfabric_create_request,
  vfabric_edit_request, vfabric_online_request, vfabric_select_request, bd_select_request,
}

-- The values are all there, and the message has room for what is written and no more.
abbrev pub IsExact : Request → Type 0
IsExact r = IsBacked r.args × (r.mesg_len ≡ 8 + length (tlvs r.args))

-- the header of a request
abbrev pub request_hdr : Request → List ℕ
request_hdr r =
    ctrl_hdr_bytes (create_ctrl_hdr (mod_id r.module_id) (opcode r.operation) r.mesg_len)

pub length-request_hdr : (r : Request) → length (request_hdr r) ≡ 8
unfolding ctrl_hdr_bytes
length-request_hdr r = refl

pub drop_none : (m : ℕ) (xs : List ℕ) → length xs ≤ m → drop m xs ≡ []
drop_none zero [] h = refl
drop_none zero (x ∷ xs) h = absurd (omega arith)
drop_none (suc m) [] h = refl
drop_none (suc m) (x ∷ xs) h = drop_none m xs (omega arith)

opened :
    (r : Request)
    → 8 ≤ r.mesg_len
    → append_bytes (request_hdr r) (record { message = replicate r.mesg_len 0; offset = 0 })
      ≡ ok (record { message = request_hdr r ++ drop 8 (replicate r.mesg_len 0); offset = 8 })
unfolding ctrl_hdr_bytes
opened r h =
    append_bytes-fits [] (replicate r.mesg_len 0) (request_hdr r) 0 refl
      (omega (arith, length-replicate {A = ℕ} r.mesg_len 0))

length-room : (n : ℕ) → length (drop {A = ℕ} 8 (replicate n 0)) ≡ n - 8
length-room n = omega (arith, length-drop {A = ℕ} 8 (replicate n 0), length-replicate {A = ℕ} n 0)

-- A message of the right size is the header and the TLVs, with no byte left over.
pub build_message-exact :
    (r : Request) → IsExact r → build_message r ≡ ok (request_hdr r ++ tlvs r.args)
unfolding build_message
build_message-exact r (b, e) =
    let room : List ℕ = drop 8 (replicate r.mesg_len 0) in
    let size = length-room r.mesg_len in
    rw (
      opened r (omega (arith, e)),
      put_all-fits r.args (request_hdr r) room 8 (length-request_hdr r) b (omega (arith, e, size)),
      drop_none (length (tlvs r.args)) room (omega (arith, e, size)),
      append-nil (request_hdr r ++ tlvs r.args),
    )

-- One that is too small is overrun.
pub build_message-overruns :
    (r : Request)
    → 8 ≤ r.mesg_len
    → IsBacked r.args
    → r.mesg_len < 8 + length (tlvs r.args)
    → build_message r ≡ fault
unfolding build_message
build_message-overruns r h b lt = rw (
  opened r h,
  put_all-overruns r.args (request_hdr r) (drop 8 (replicate r.mesg_len 0)) 8 (length-request_hdr r)
      b (omega (arith, length-room r.mesg_len)),
)

length-args :
    (a b : Arg)
    → a.len ≤ length a.value
    → b.len ≤ length b.value
    → length (tlvs (a ∷ b ∷ [])) ≡ 8 + a.len + (8 + b.len)
unfolding tlvs
length-args a b ha hb = omega (
  arith,
  length-tlv_bytes a ha,
  length-tlv_bytes b hb,
  length-append (tlv_bytes a) (tlv_bytes b ++ []),
  length-append (tlv_bytes b) [],
)

length-args3 :
    (a b c : Arg)
    → a.len ≤ length a.value
    → b.len ≤ length b.value
    → c.len ≤ length c.value
    → length (tlvs (a ∷ b ∷ c ∷ [])) ≡ 8 + a.len + (8 + b.len) + (8 + c.len)
unfolding tlvs
length-args3 a b c ha hb hc = omega (
  arith,
  length-args b c hb hc,
  length-tlv_bytes a ha,
  length-append (tlv_bytes a) (tlvs (b ∷ c ∷ [])),
)

-- a request of two objects
selects :
    (m : ApiModule) (n t u : ℕ) (x y : List ℕ)
    → n ≡ 24 + length x + length y
    → IsExact (record {
      module_id = m;
      operation = vfm_query_inventory;
      mesg_len = n;
      args = object_arg t x ∷ object_arg u y ∷ [];
    })
selects m n t u x y e =
    let a : Arg = object_arg t x in
    let b : Arg = object_arg u y in
    (
      (omega arith, (omega arith, tt)),
      omega (arith, e, length-args a b (omega arith) (omega arith)),
    )

-- a request of an id and two objects
edits :
    (m : ApiModule) (n id t u : ℕ) (x y : List ℕ)
    → n ≡ 36 + length x + length y
    → IsExact (record {
      module_id = m;
      operation = vfm_edit;
      mesg_len = n;
      args = int_arg id ∷ object_arg t x ∷ object_arg u y ∷ [];
    })
edits m n id t u x y e =
    let a : Arg = object_arg t x in
    let b : Arg = object_arg u y in
    (
      (omega arith, (omega arith, (omega arith, tt))),
      omega (arith, e, length-args3 (int_arg id) a b (omega arith) (omega arith) (omega arith)),
    )

-- a request of two names and a number
creates :
    (m : ApiModule) (n protocol : ℕ) (x y : List ℕ)
    → n ≡ 164
    → 64 ≤ length x
    → 64 ≤ length y
    → IsExact (record {
      module_id = m;
      operation = vfm_create;
      mesg_len = n;
      args = name_arg x ∷ name_arg y ∷ int_arg protocol ∷ [];
    })
creates m n protocol x y e hx hy =
    let c : Arg = int_arg protocol in
    (
      (hx, (hy, (omega arith, tt))),
      omega (arith, e, length-args3 (name_arg x) (name_arg y) c hx hy (omega arith)),
    )

-- The client functions that create, edit, select, destroy or activate compute the size of their
-- message to the byte, for every name and description of at least 64 readable bytes, every id and
-- every object.
pub requests_fit :
    (name desc bitmask attr : List ℕ) (id protocol : ℕ)
    → 64 ≤ length name
    → 64 ≤ length desc
    → IsExact (vadapter_create_request name desc protocol)
      × IsExact (vadapter_edit_request id bitmask attr)
      × IsExact (vadapter_select_request attr bitmask)
      × IsExact (vadapter_destroy_request id)
      × IsExact (vadapter_online_request id)
      × IsExact (vfabric_create_request name desc protocol)
      × IsExact (vfabric_edit_request id bitmask attr)
      × IsExact (vfabric_online_request id)
      × IsExact (vfabric_select_request attr bitmask)
      × IsExact (bd_select_request attr bitmask)
unfolding vadapter_create_request vadapter_edit_request vadapter_select_request
    vadapter_destroy_request vadapter_online_request vfabric_create_request vfabric_edit_request
    vfabric_online_request vfabric_select_request bd_select_request tlvs tlv_bytes
requests_fit name desc bitmask attr id protocol hn hd = (
  creates vadapter 164 protocol name desc refl hn hd,
  edits vadapter _ id 16 17 bitmask attr (omega arith),
  selects vadapter _ 16 17 bitmask attr (omega arith),
  ((omega arith, tt), refl),
  ((omega arith, tt), refl),
  creates vfabric 164 protocol name desc refl hn hd,
  edits vfabric _ id 20 21 bitmask attr (omega arith),
  ((omega arith, tt), refl),
  selects vfabric _ 21 20 attr bitmask (omega arith),
  selects bridge_device _ 18 16 attr bitmask (omega arith),
)

-- `vfm_vadapter_edit_protocol_attr` leaves the id out of the size: whatever its arguments, it
-- writes past the end of its message.
pub edit_protocol_overruns :
    (id : ℕ) (bitmask attr : List ℕ)
    → build_message (vadapter_edit_protocol_request id bitmask attr) ≡ fault
unfolding vadapter_edit_protocol_request
edit_protocol_overruns id bitmask attr =
    let a : Arg = record { type = 1; len = 4; value = le32 id } in
    let b : Arg = record { type = 16; len = length bitmask; value = bitmask } in
    let c : Arg = record { type = 17; len = length attr; value = attr } in
    build_message-overruns (vadapter_edit_protocol_request id bitmask attr) (omega arith)
      (omega arith, (omega arith, (omega arith, tt)))
      (omega (arith, length-args3 a b c (omega arith) (omega arith) (omega arith)))

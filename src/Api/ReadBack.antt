-- ===== src/Api/ReadBack.antt =====
-- src/vps/vfm/vfmapi_common.c: what `create_api_tlv` writes, `get_api_tlv` and `unpack_tlv` read.
use vfm.Base.{
  ℕ, ◌+◌, ◌%◌, ◌≤◌, ◌≡◌, refl, ap, arith, List, [], ◌∷◌, ◌++◌, length, le32, drop, take,
  length-append, length-take, append-nil, append_assoc, IsWord32, of_le32-le32, drop_past, le→ltb,
  ◌∙◌, sym,
}
use vfm.Outcome.{Outcome, ok, ◌>>=◌}
use vfm.Fip.Memory.{slice, take_exact, take_exact-append, write_into}
use vfm.Api.{Arg, ApiHdr, mod_id, opcode, create_ctrl_hdr, ctrl_hdr_bytes}
use vfm.Api.Tlv.{word_of, word_at, get_api_tlv, unpack_tlv, read_hdr, read_api_ctrl_hdr}
use vfm.Api.Layout.{IsBacked, tlv_bytes, tlvs, length-tlv_bytes, patch_front}
use vfm.Api.Request.{Request, build_message}
use vfm.Api.Sizes.{IsExact, request_hdr, length-request_hdr, drop_none, build_message-exact}

-- a slice behind a prefix
pub slice_past :
    (off n : ℕ) (pre xs more : List ℕ)
    → length pre ≡ off
    → length xs ≡ n
    → slice off n (pre ++ (xs ++ more)) ≡ ok xs
unfolding slice
slice_past off n pre xs more e h =
    let here : drop off (pre ++ (xs ++ more)) ≡ xs ++ more =
      drop_past off 0 pre (xs ++ more) (omega arith) in
    ap (λ k. take_exact k (drop off (pre ++ (xs ++ more)))) (sym h)
    ∙ ap (take_exact (length xs)) here
    ∙ take_exact-append xs more

pub word_at_past :
    (off v : ℕ) (pre more : List ℕ)
    → length pre ≡ off
    → IsWord32 v
    → word_at off (pre ++ (le32 v ++ more)) ≡ ok v
unfolding word_at
word_at_past off v pre more e h =
    rw (slice_past off 4 pre (le32 v) more e refl, word_of) (ap ok (of_le32-le32 v h))

-- the three reads of a TLV behind a prefix
reads_tlv :
    (a : Arg) (pos : ℕ) (pre more : List ℕ)
    → length pre ≡ pos
    → a.len ≤ length a.value
    → IsWord32 a.len
    → let m : List ℕ = pre ++ (tlv_bytes a ++ more) in
      (word_at pos m ≡ ok (a.type % 256))
      × (word_at (pos + 4) m ≡ ok a.len)
      × (slice (pos + 8) a.len m ≡ ok (take a.len a.value))
unfolding tlv_bytes
reads_tlv a pos pre more e b w =
    let t : List ℕ = le32 (a.type % 256) in
    let l : List ℕ = le32 a.len in
    let v : List ℕ = take a.len a.value in
    let whole : pre ++ ((t ++ l ++ v) ++ more) ≡ (pre ++ t) ++ (l ++ (v ++ more)) =
      sym (append_assoc pre t (l ++ (v ++ more))) in
    let rest : pre ++ ((t ++ l ++ v) ++ more) ≡ (pre ++ (t ++ l)) ++ (v ++ more) =
      sym (append_assoc pre (t ++ l) (v ++ more)) in
    (
      word_at_past pos (a.type % 256) pre (l ++ (v ++ more)) e (omega arith),
      ap (word_at (pos + 4)) whole
          ∙ word_at_past (pos + 4) a.len (pre ++ t) (v ++ more) (omega (arith, length-append pre t))
              w,
      ap (slice (pos + 8) a.len) rest
          ∙ slice_past (pos + 8) a.len (pre ++ (t ++ l)) v more
              (omega (arith, length-append pre (t ++ l)))
              (omega (arith, length-take a.len a.value)),
    )

pub small : (n : ℕ) → IsWord32 n → n % 4294967296 ≡ n
small n h = omega arith

-- A TLV behind a prefix is unpacked to its value.
pub unpack_tlv-reads :
    (a : Arg) (pos : ℕ) (pre more : List ℕ)
    → length pre ≡ pos
    → a.len ≤ length a.value
    → IsWord32 (pos + (8 + a.len))
    → unpack_tlv (pre ++ (tlv_bytes a ++ more)) pos ≡ ok (take a.len a.value, pos + (8 + a.len))
unfolding unpack_tlv
unpack_tlv-reads a pos pre more e b w =
    let (t, l, v) = reads_tlv a pos pre more e b (omega arith) in
    rw (t, l, v, small (pos + (8 + a.len)) w)

-- It is copied over the object it is read to, if that is large enough.
pub get_api_tlv-reads :
    (a : Arg) (object : List ℕ) (pos : ℕ) (pre more : List ℕ)
    → length pre ≡ pos
    → a.len ≤ length a.value
    → a.len ≤ length object
    → IsWord32 (pos + (8 + a.len))
    → get_api_tlv object (pre ++ (tlv_bytes a ++ more)) pos
      ≡ ok (take a.len a.value ++ drop a.len object, pos + (8 + a.len))
unfolding get_api_tlv write_into
get_api_tlv-reads a object pos pre more e b room w =
    let (t, l, v) = reads_tlv a pos pre more e b (omega arith) in
    let size : length (take a.len a.value) ≡ a.len = omega (arith, length-take a.len a.value) in
    let fits : length (take a.len a.value) ≤ length object = omega (arith, size) in
    rw (
      t,
      l,
      v,
      le→ltb (length object) (0 + length (take a.len a.value)) (omega (arith, size)),
      patch_front (take a.len a.value) object fits,
      size,
      small (pos + (8 + a.len)) w,
    )

-- the objects that a handler reads the arguments of a message to, one after another
unfoldable pub read_args : (objects : List (List ℕ)) → (buff : List ℕ) → ℕ → Outcome (List (List ℕ))
unfolding get_api_tlv
read_args [] buff pos = ok []
read_args (o ∷ objects) buff pos =
    get_api_tlv o buff pos >>= λ (v, next). read_args objects buff next >>= λ vs. ok (v ∷ vs)

-- each argument has an object of exactly its size
abbrev pub IsSized : List Arg → List (List ℕ) → Type 0
IsSized [] [] = Unit
IsSized [] (o ∷ objects) = ⊥
IsSized (a ∷ args) [] = ⊥
IsSized (a ∷ args) (o ∷ objects) = (a.len ≡ length o) × IsSized args objects

abbrev pub values : List Arg → List (List ℕ)
values [] = []
values (a ∷ args) = take a.len a.value ∷ values args

read_args-reads :
    (args : List Arg) (objects : List (List ℕ)) (pos : ℕ) (pre : List ℕ)
    → length pre ≡ pos
    → IsBacked args
    → IsSized args objects
    → IsWord32 (pos + length (tlvs args))
    → read_args objects (pre ++ tlvs args) pos ≡ ok (values args)
unfolding read_args tlvs
read_args-reads [] [] pos pre e b s w = refl
read_args-reads [] (o ∷ objects) pos pre e b s w = absurd s
read_args-reads (a ∷ args) [] pos pre e b s w = absurd s
read_args-reads (a ∷ args) (o ∷ objects) pos pre e (b, bs) (s, ss) w =
    let one = length-tlv_bytes a b in
    let both = length-append (tlv_bytes a) (tlvs args) in
    let next : List ℕ = pre ++ tlv_bytes a in
    let whole : pre ++ (tlv_bytes a ++ tlvs args) ≡ next ++ tlvs args =
      sym (append_assoc pre (tlv_bytes a) (tlvs args)) in
    rw (
      get_api_tlv-reads a o pos pre (tlvs args) e b (omega (arith, s)) (omega (arith, one, both)),
      drop_none a.len o (omega (arith, s)),
      append-nil (take a.len a.value),
      whole,
      read_args-reads args objects (pos + (8 + a.len)) next
          (omega (arith, one, length-append pre (tlv_bytes a))) bs ss (omega (arith, one, both)),
    )

-- what the server makes of a message: its header, and its arguments in objects of their sizes
unfoldable pub received : List (List ℕ) → List ℕ → Outcome (ApiHdr × List (List ℕ))
unfolding read_api_ctrl_hdr read_args
received objects m =
    read_api_ctrl_hdr m 0 >>= λ (h, pos). read_args objects m pos >>= λ vs. ok (h, vs)

pub read_api_ctrl_hdr-reads :
    (r : Request) (more : List ℕ)
    → IsWord32 r.mesg_len
    → read_api_ctrl_hdr (request_hdr r ++ more) 0
      ≡ ok (create_ctrl_hdr (mod_id r.module_id) (opcode r.operation) r.mesg_len, 8)
unfolding read_api_ctrl_hdr create_ctrl_hdr ctrl_hdr_bytes read_hdr slice
read_api_ctrl_hdr-reads r more h =
    ap
      (λ n. ok (
        record {
          mod_id = mod_id r.module_id % 256;
          opcode = opcode r.operation % 256;
          reserved = 0;
          length = n;
        },
        8,
      ))
      (of_le32-le32 (r.mesg_len % 4294967296) (omega arith))

-- A client's message of the right size, read by the server: the header that the client made, and
-- every argument as the client passed it, in objects of the arguments' sizes.
pub request_received :
    (r : Request) (objects : List (List ℕ))
    → IsExact r
    → IsWord32 r.mesg_len
    → IsSized r.args objects
    → (build_message r >>= received objects)
      ≡ ok (create_ctrl_hdr (mod_id r.module_id) (opcode r.operation) r.mesg_len, values r.args)
unfolding received
request_received r objects (b, e) w s = rw (
  build_message-exact r (b, e),
  read_api_ctrl_hdr-reads r (tlvs r.args) w,
  read_args-reads r.args objects 8 (request_hdr r) (length-request_hdr r) b s (omega (arith, e)),
)

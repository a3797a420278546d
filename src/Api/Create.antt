-- ===== src/Api/Create.antt =====
-- `vfm_vadapter_create`, from the client's arguments to the database and back to the client.
use vfm.Base.{
  ℕ, ◌+◌, ◌≤◌, ◌≡◌, refl, ap, ◌∙◌, sym, arith, Bool, true, false, none, some, List, [], ◌∷◌, ◌++◌,
  length, take, replicate, le32, of_le32-le32, length-append, append-nil, append_assoc, IsWord32,
  ◌==◌, if◌then◌else◌,
}
use vfm.Outcome.{ok, ◌>>=◌}
use vfm.Db.{Libc, Sqlite}
use vfm.Db.Vadapter.{Attr, db_vadapter, vpsdb_add_resource}
use vfm.Api.Tlv.{get_api_tlv, word_of}
use vfm.Api.Layout.{tlv_bytes, tlvs, length-tlv_bytes}
use vfm.Api.Request.{Request, name_arg, int_arg, vadapter_create_request}
use vfm.Api.Sizes.{request_hdr, length-request_hdr, requests_fit}
use vfm.Api.ReadBack.{get_api_tlv-reads}
use vfm.Api.Server.{Handlers, Case, case_of}
use vfm.Api.Handlers.{word_packet, process_vfm_create_vadapter}
use vfm.Api.Inventory.{Abi}
use vfm.Api.Client.{vfm_vadapter_create}
use vfm.Api.Word.{created}
use vfm.Api.Call.{served, call_server-word}

-- A name behind a prefix, read to a cleared array.
reads_name :
    (name : List ℕ) (pos : ℕ) (pre more : List ℕ)
    → length pre ≡ pos
    → 64 ≤ length name
    → pos ≤ 8192
    → get_api_tlv (replicate 64 0) (pre ++ (tlv_bytes (name_arg name) ++ more)) pos
      ≡ ok (take 64 name, pos + 72)
reads_name name pos pre more e h fits =
    get_api_tlv-reads (name_arg name) (replicate 64 0) pos pre more e h (omega arith) (omega arith)
    ∙ ap (λ v. ok (v, pos + 72)) (append-nil (take 64 name))

-- A number behind a prefix.
reads_number :
    (v pos : ℕ) (pre more : List ℕ)
    → length pre ≡ pos
    → pos ≤ 8192
    → get_api_tlv (replicate 4 0) (pre ++ (tlv_bytes (int_arg v) ++ more)) pos
      ≡ ok (le32 v, pos + 12)
reads_number v pos pre more e fits =
    get_api_tlv-reads (int_arg v) (replicate 4 0) pos pre more e (omega arith) (omega arith)
      (omega arith)

chosen_IsWord32 : (b : Bool) (x y : ℕ) → IsWord32 x → IsWord32 y → IsWord32 (if b then x else y)
chosen_IsWord32 true x y hx hy = hx
chosen_IsWord32 false x y hx hy = hy

module _ {Store : Type 0} (sql : Sqlite Store) (libc : Libc) where
  -- what the server hands to the database
  abbrev pub new_attr : (name desc : List ℕ) → (protocol : ℕ) → Attr
  new_attr name desc protocol = record {
    id = 0;
    name = take 64 name;
    desc = take 64 desc;
    protocol = protocol;
  }

  handler_runs :
      (name desc hd : List ℕ) (protocol rc : ℕ) (attr : Attr) (db after : Store)
      → length hd ≡ 8
      → 64 ≤ length name
      → 64 ≤ length desc
      → IsWord32 protocol
      → vpsdb_add_resource sql libc db_vadapter db (new_attr name desc protocol)
        ≡ ok (rc, attr, after)
      → process_vfm_create_vadapter sql libc
          (hd ++ tlvs (name_arg name ∷ name_arg desc ∷ int_arg protocol ∷ []))
          8
          db
        ≡ ok (rc, word_packet (if rc == 0 then attr.id else rc), after)
  unfolding process_vfm_create_vadapter tlvs word_of
  handler_runs name desc hd protocol rc attr db after e hn hd' w added =
      let a : List ℕ = tlv_bytes (name_arg name) in
      let b : List ℕ = tlv_bytes (name_arg desc) in
      let c : List ℕ = tlv_bytes (int_arg protocol) in
      let la = length-tlv_bytes (name_arg name) hn in
      let lb = length-tlv_bytes (name_arg desc) hd' in
      let m : List ℕ = hd ++ (a ++ (b ++ (c ++ []))) in
      let second : m ≡ (hd ++ a) ++ (b ++ (c ++ [])) = sym (append_assoc hd a (b ++ (c ++ []))) in
      let third : m ≡ (hd ++ a ++ b) ++ (c ++ []) =
        second ∙ sym (append_assoc (hd ++ a) b (c ++ [])) in
      let at_desc : length (hd ++ a) ≡ 80 = omega (arith, e, la, length-append hd a) in
      let at_protocol : length (hd ++ a ++ b) ≡ 152 =
        omega (arith, at_desc, lb, length-append (hd ++ a) b) in
      let read_desc : get_api_tlv (replicate 64 0) m 80 ≡ ok (take 64 desc, 152) =
        ap (λ x. get_api_tlv (replicate 64 0) x 80) second
        ∙ reads_name desc 80 (hd ++ a) (c ++ []) at_desc hd' (omega arith) in
      let read_protocol : get_api_tlv (replicate 4 0) m 152 ≡ ok (le32 protocol, 164) =
        ap (λ x. get_api_tlv (replicate 4 0) x 152) third
        ∙ reads_number protocol 152 (hd ++ a ++ b) [] at_protocol (omega arith) in
      rw (reads_name name 8 hd (b ++ (c ++ [])) e hn (omega arith), read_desc, read_protocol)
        (ap
            (λ p.
              vpsdb_add_resource sql libc db_vadapter db (new_attr name desc p)
              >>= λ (rc₁, a₁, after₁).
                  ok (rc₁, word_packet (if rc₁ == 0 then a₁.id else rc₁), after₁))
            (of_le32-le32 protocol w)
          ∙ ap
              (λ o. o >>= λ (rc₁, a₁, after₁).
                ok (rc₁, word_packet (if rc₁ == 0 then a₁.id else rc₁), after₁))
              added)

  -- A virtual adapter is created through a server that has this handler: for a name and a
  -- description of at least 64 readable bytes, a protocol and a result that are `uint32_t`, and
  -- whatever the database does, the call returns 0. The caller gets the id that the database gave
  -- the adapter; where the addition fails, it gets the number of the error as the id.
  pub vadapter_created :
      (abi : Abi) (h : Handlers Store) (malloc : ℕ → List ℕ) (name desc : List ℕ) (protocol rc : ℕ)
      (attr : Attr) (db after : Store)
      → h.create_vadapter ≡ process_vfm_create_vadapter sql libc
      → ((n : ℕ) → length (malloc n) ≡ n)
      → 64 ≤ length name
      → 64 ≤ length desc
      → IsWord32 protocol
      → IsWord32 rc
      → IsWord32 attr.id
      → vpsdb_add_resource sql libc db_vadapter db (new_attr name desc protocol)
        ≡ ok (rc, attr, after)
      → vfm_vadapter_create abi (served h malloc db) none name desc protocol
        ≡ ok (some 3, 0, some (if rc == 0 then attr.id else rc))
  unfolding vfm_vadapter_create vadapter_create_request case_of
  vadapter_created abi h malloc name desc protocol rc attr db after runs sized hn hd w wr wi added =
      let r : Request = vadapter_create_request name desc protocol in
      let id : ℕ = if rc == 0 then attr.id else rc in
      let (exact, _, _, _, _, _, _, _, _, _) = requests_fit name desc [] [] 0 protocol hn hd in
      let c : Case Store = record {
        handler = h.create_vadapter;
        reports = false;
        no_of_args = 1;
      } in
      let small : IsWord32 id = chosen_IsWord32 (rc == 0) attr.id rc wi wr in
      let ran : h.create_vadapter (request_hdr r ++ tlvs r.args) 8 db
          ≡ ok (rc, word_packet id, after) =
        ap (λ f. f (request_hdr r ++ tlvs r.args) 8 db) runs
        ∙ handler_runs name desc (request_hdr r) protocol rc attr db after (length-request_hdr r) hn
            hd w added in
      rw (
        call_server-word h malloc sized abi r c rc id db after exact (omega arith) small created
          refl refl refl ran)

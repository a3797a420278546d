-- ===== src/Db/Where.antt =====
-- `add_query_parameters` and `add_update_query_parameters` of src/vps/vfm/vfmapi_common.c: conditions
-- and assignments are appended to the text of a query, one for each bit that is set in a bitmask.
use vfm.Base.{ℕ, ◌+◌, Bool, true, false, List, [], ◌∷◌, ◌++◌, ltb, if◌then◌else◌}
use Prim.Native.String.{String}
use vfm.Outcome.{Outcome, ok, ◌>>=◌}
use vfm.Db.{Libc, Piece, text, number, long_number, chars, c_string}

-- A value by its `data_type`. A named parameter is the text of its place in the query.
pub data QueryValue : Type 0 where
  q_uint8 : (array : List ℕ) → QueryValue
  q_uint32 : ℕ → QueryValue
  q_uint64 : ℕ → QueryValue
  q_named_param : (place : String) → QueryValue

-- The value as `sprintf` prints it, a text in the given quotes.
unfoldable pub value_pieces : (quote : String) → QueryValue → Outcome (List Piece)
unfolding c_string
value_pieces quote (q_uint8 array) =
    c_string array >>= λ s. ok (text quote ∷ chars s ∷ text quote ∷ [])
value_pieces quote (q_uint32 n) = ok (number n ∷ [])
value_pieces quote (q_uint64 n) = ok (long_number n ∷ [])
value_pieces quote (q_named_param place) = ok (text place ∷ [])

module _ (libc : Libc) where
  -- The first condition follows the query. A later one is printed behind it by a `sprintf` whose
  -- first argument, an empty string, lies where it prints to.
  unfoldable pub add_query_parameters :
      (buff : List ℕ) → (count : ℕ) → (db_field : String) → QueryValue → Outcome (List ℕ)
  unfolding value_pieces
  add_query_parameters buff count db_field attr_field = value_pieces "\"" attr_field >>= λ v.
      let field : List Piece = text db_field ∷ text " = " ∷ v in
      ok (
        buff
        ++ (if ltb 0 count
            then libc.sprintf_over (text " " ∷ chars [] ∷ text " and " ∷ field)
            else libc.sprintf (text " where " ∷ field)))

  unfoldable pub add_update_query_parameters :
      (buff : List ℕ) → (count : ℕ) → (db_field : String) → QueryValue → Outcome (List ℕ)
  unfolding value_pieces
  add_update_query_parameters buff count db_field attr_field = value_pieces "'" attr_field >>= λ v.
      let field : List Piece = text db_field ∷ text " = " ∷ v in
      ok (
        buff
        ++ (if ltb 0 count
            then libc.sprintf_over (text " " ∷ chars [] ∷ text " , " ∷ field)
            else libc.sprintf (text " " ∷ field)))

-- One `if` on a bit of a bitmask: whether it is set, and the field and value that it adds.
pub record Bit : Type 0 where
  pub is_set : Bool
  pub db_field : String
  pub value : QueryValue

-- The `if`s in turn: the query, and how many were set.
unfoldable pub add_bits :
    (add : List ℕ → ℕ → String → QueryValue → Outcome (List ℕ))
    → List Bit
    → (query : List ℕ) → (count : ℕ) → Outcome (List ℕ × ℕ)
add_bits add [] query count = ok (query, count)
add_bits add (b ∷ bits) query count = elim b.is_set [
  | true ↦ add query count b.db_field b.value >>= λ q. add_bits add bits q (count + 1)
  | false ↦ add_bits add bits query count
]

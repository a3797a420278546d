-- ===== src/Db.antt =====
-- src/vps/vfm/db/vfmdb.c: queries on the SQLite database. SQLite and the C library are not part of
-- the code: what it asks of them is in the records `Sqlite` and `Libc`.
pub mod Vadapter
pub mod Added
pub mod Column
pub mod Rows
pub mod Fabric
pub mod Where
pub mod Adapters
pub mod Fabrics
pub mod Bridges
pub mod Unread
pub mod Discovered
pub mod Unterminated
use Prim.Native.String.{String}
use vfm.Base.{
  ℕ, zero, suc, ◌+◌, ◌≡◌, refl, Bool, true, false, Option, none, some, List, [], ◌∷◌, ◌++◌, ◌==◌,
  if◌then◌else◌,
}
use vfm.Outcome.{Outcome, ok, fault, ◌>>=◌}
use vfm.Fip.Memory.{take_exact}

-- One conversion or literal text of a `printf` format, with its argument.
pub data Piece : Type 0 where
  text : String → Piece
  number : ℕ → Piece
  long_number : ℕ → Piece
  chars : List ℕ → Piece

-- `sprintf` into a buffer that none of its arguments is in, `sprintf` into a buffer that is its
-- own first argument (C leaves open what that does), `atoi`, and what `malloc` returns.
pub record Libc : Type 0 where
  pub sprintf : List Piece → List ℕ
  pub sprintf_over : List Piece → List ℕ
  pub atoi : List ℕ → ℕ
  pub malloc : ℕ → List ℕ

-- A row of a result: the name of each column, and its text. `none` is SQL's null.
abbrev pub Row : Type 0
Row = List (String × Option (List ℕ))

-- A prepared statement: the text, and what was bound to its parameters, the first first.
pub record Stmt : Type 0 where
  pub query : List ℕ
  pub bound : List (List ℕ)

-- One run of a statement: the rows that `sqlite3_step` stops at, the code that it returns after
-- the last one, and the database then.
pub record Run (Store : Type 0) : Type 0 where
  pub rows : List Row
  pub final : ℕ
  pub after : Store

-- Whether `sqlite3_prepare` and `sqlite3_bind_text` succeed, what a run of a statement does, and
-- what `sqlite3_exec` does with a text, for a callback that returns 0.
pub record Sqlite (Store : Type 0) : Type 0 where
  pub prepares : Store → List ℕ → Bool
  pub binds : Store → Stmt → List ℕ → Bool
  pub run : Store → Stmt → Run Store
  pub exec : Store → List ℕ → Run Store

-- `SQLITE_DONE`
abbrev pub sqlite_done : ℕ
sqlite_done = 101

-- the text before the first zero byte, a fault where there is none
unfoldable pub c_string : List ℕ → Outcome (List ℕ)
c_string [] = fault
c_string (c ∷ s) = if c == 0 then ok [] else (c_string s >>= λ r. ok (c ∷ r))

-- what a format character takes from its argument; `none` for a character that it does not know
unfoldable pub binding : (fmt : ℕ) → List ℕ → Option (Outcome (List ℕ))
unfolding take_exact c_string
binding c arg =
    if c == b'g'
    then some (take_exact 8 arg)
    else if c == b'm'
    then some (take_exact 6 arg)
    else if c == b's'
    then some (c_string arg)
    else none

module _ {Store : Type 0} (sql : Sqlite Store) where
  -- The loop over the format. An unknown character ends it with what is bound so far.
  unfoldable pub bind_args :
      (fmt : List ℕ) → (args : List (List ℕ)) → Store → Stmt → Outcome (Option Stmt)
  unfolding binding
  bind_args [] args db stmt = ok (some stmt)
  bind_args (c ∷ fmt) [] db stmt = fault
  bind_args (c ∷ fmt) (arg ∷ args) db stmt = elim (binding c arg) [
    | none ↦ ok (some stmt)
    | some taken ↦ taken >>= λ str.
        if sql.binds db stmt str
        then bind_args fmt args db (record { query = stmt.query; bound = stmt.bound ++ str ∷ [] })
        else ok none
  ]

  -- A `NULL` format binds nothing, as an empty one.
  unfoldable pub vfmdb_prepare_query :
      Store → (query fmt : List ℕ) → (args : List (List ℕ)) → Outcome (Option Stmt)
  unfolding bind_args
  vfmdb_prepare_query db query fmt args =
      if sql.prepares db query
      then bind_args fmt args db (record { query = query; bound = [] })
      else ok none

  -- The arguments are copied to an array first, one for each character of the format.
  unfoldable pub vfmdb_prepare_query_ex :
      Store
      → (query : List ℕ) → (fmt : Option (List ℕ)) → (args : List (List ℕ)) → Outcome (Option Stmt)
  unfolding vfmdb_prepare_query
  vfmdb_prepare_query_ex db query none args = vfmdb_prepare_query db query [] []
  vfmdb_prepare_query_ex db query (some fmt) args = vfmdb_prepare_query db query fmt args

-- A null value becomes an empty string.
unfoldable pub row_values : Row → List (String × List ℕ)
row_values [] = []
row_values ((col, none) ∷ row) = (col, []) ∷ row_values row
row_values ((col, some v) ∷ row) = (col, v) ∷ row_values row

module _ {ℓ} {A : Type ℓ} where
  -- A callback gets the columns of a row, and returns its code and what it leaves behind `arg`.
  unfoldable pub process_row :
      (sql_cb : List (String × List ℕ) → A → Outcome (ℕ × A)) → Row → A → Outcome (ℕ × A)
  unfolding row_values
  process_row sql_cb row arg =
      sql_cb (row_values row) arg >>= λ (code, after). ok ((if code == 0 then 0 else 1), after)

  -- The rows in turn, whatever the callback returns.
  unfoldable pub process_rows :
      (sql_cb : List (String × List ℕ) → A → Outcome (ℕ × A)) → List Row → A → Outcome A
  unfolding process_row
  process_rows sql_cb [] arg = ok arg
  process_rows sql_cb (row ∷ rows) arg =
      process_row sql_cb row arg >>= λ (_, after). process_rows sql_cb rows after

  -- The code, 0 for success; what the callback leaves; and the database.
  unfoldable pub vfmdb_execute_query :
      {Store : Type 0}
      → Sqlite Store
      → Store
      → Stmt
      → (sql_cb : List (String × List ℕ) → A → Outcome (ℕ × A)) → A
      → Outcome (ℕ × A × Store)
  unfolding process_rows
  vfmdb_execute_query sql db stmt sql_cb arg =
      let r = sql.run db stmt in
      process_rows sql_cb r.rows arg >>= λ after.
      ok ((if r.final == sqlite_done then 0 else r.final), after, r.after)

-- `vfmdb_execute_query(stmt, NULL, NULL)`: a row would be passed to a null function.
unfoldable pub without_rows :
    {Store : Type 0} → List Row → (final : ℕ) → Store → Outcome (ℕ × Store)
without_rows [] final after = ok ((if final == sqlite_done then 0 else final), after)
without_rows (_ ∷ _) final after = fault

unfoldable pub run_statement : {Store : Type 0} → Sqlite Store → Store → Stmt → Outcome (ℕ × Store)
unfolding without_rows
run_statement sql db stmt = let r = sql.run db stmt in without_rows r.rows r.final r.after

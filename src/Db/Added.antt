-- ===== src/Db/Added.antt =====
-- src/vps/vfm/db/vfmdb_vadapter.c: the ids that additions give, over a table that SQLite keeps.
use vfm.Base.{
  ℕ, ◌+◌, ◌≡◌, ◌≢◌, true, false, Option, none, some, List, [], ◌∷◌, ◌++◌, ltb, if◌then◌else◌,
}
use Prim.Native.String.{String}
use vfm.Outcome.{Outcome, ok}
use vfm.Config.File.{has_char}
use vfm.Db.{Libc, Sqlite, Stmt, text, number, chars, sqlite_done}
use vfm.Db.Vadapter.{Attr}

-- the largest of some ids, 0 if there is none
unfoldable pub max_of : List ℕ → ℕ
max_of [] = 0
max_of (i ∷ ids) = let rest = max_of ids in if ltb rest i then i else rest

-- The id is none of these.
abbrev pub NotIn : ℕ → List ℕ → Type 0
NotIn i [] = Unit {0}
NotIn i (j ∷ ids) = (i ≢ j) × NotIn i ids

abbrev pub AreDistinct : List ℕ → Type 0
AreDistinct [] = Unit {0}
AreDistinct (i ∷ ids) = NotIn i ids × AreDistinct ids

module _ {Store : Type 0} (sql : Sqlite Store) (libc : Libc) where
  abbrev pub max_query : List ℕ
  max_query = libc.sprintf (text "select max(id) from vfm_vadapter_attr;" ∷ [])

  abbrev pub unbound : List ℕ → Stmt
  unbound q = record { query = q; bound = [] }

  -- A null value counts as an empty text.
  abbrev pub text_of : Option (List ℕ) → List ℕ
  text_of none = []
  text_of (some v) = v

  abbrev pub insertion : Attr → (name desc : List ℕ) → List ℕ
  insertion a name desc = libc.sprintf_over (
      (text "insert into vfm_vadapter_attr (id, name, desc, protocol) values ("
        ∷ text " "
        ∷ number a.id
        ∷ text ", '"
        ∷ chars name
        ∷ text "', '"
        ∷ [])
      ++ ((chars desc ∷ text "', " ∷ number a.protocol ∷ []) ++ (text ");" ∷ [])))

  -- How SQLite keeps the table of adapters, of which `Holds` says the ids: the first query gives the
  -- largest one, as a text that reads as that number, and leaves the table; a row with a new id and
  -- texts that hold no quote is inserted.
  pub record KeepsTable (Holds : Store → List ℕ → Type 0) : Type 0 where
    pub reads :
        (db : Store) (ids : List ℕ)
        → Holds db ids
        → (col : String) × (largest : Option (List ℕ)) × (sql.prepares db max_query ≡ true)
          × (sql.run db (unbound max_query)
              ≡ record { rows = ((col, largest) ∷ []) ∷ []; final = sqlite_done; after = db })
          × (libc.atoi (text_of largest) ≡ max_of ids)
    pub inserts :
        (db : Store) (ids : List ℕ) (a : Attr) (name desc : List ℕ)
        → Holds db ids
        → NotIn a.id ids
        → has_char b'\'' name ≡ false
        → has_char b'\'' desc ≡ false
        → (after : Store) × (sql.prepares db (insertion a name desc) ≡ true)
          × (sql.run db (unbound (insertion a name desc))
              ≡ record { rows = []; final = sqlite_done; after = after })
          × Holds after (a.id ∷ ids)

  -- the attributes under the id after the largest one
  abbrev pub numbered : Attr → List ℕ → Attr
  numbered a ids = record {
    id = max_of ids + 1;
    name = a.name;
    desc = a.desc;
    protocol = a.protocol;
  }

  abbrev done : Attr → Store → (id : ℕ) → Outcome (ℕ × Attr × Store)
  done a after i =
      ok (0, record { id = i; name = a.name; desc = a.desc; protocol = a.protocol }, after)

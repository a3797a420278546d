-- ===== src/Db/Unterminated.antt =====
-- src/vps/vfm/db/vfmdb_iomodule.c: what is bound to the insertion of a discovered IO module.
use vfm.Base.{ℕ, ◌+◌, ◌%◌, ◌≡◌, ◌≢◌, refl, true, Option, none, some, List, [], ◌∷◌, ne→==}
use Prim.Native.String.{String}
use vfm.Outcome.{fault}
use vfm.Ether.{Mac, mac, mac_bytes, Name, name_bytes}
use vfm.Db.{Libc, Sqlite, Row, text, sqlite_done, c_string}
use vfm.Db.Rows.{IoModule}
use vfm.Db.Discovered.{Discovered, solicited, insert_query, add_en_io_module_to_db}

abbrev pub AllNonzero : List ℕ → Type 0
AllNonzero [] = Unit {0}
AllNonzero (c ∷ s) = (c ≢ 0) × AllNonzero s

unterminated : (s : List ℕ) → AllNonzero s → c_string s ≡ fault
unfolding c_string
unterminated [] all = refl
unterminated (c ∷ s) all = rw (ne→== c 0 all.0, unterminated s all.1)

module _ {Store : Type 0} (sql : Sqlite Store) (libc : Libc) (fresh : IoModule) where
  abbrev pub by_mac : List ℕ
  by_mac = libc.sprintf (text "select * from vfm_io_module_attr where mac = ?1;" ∷ [])

  abbrev pub largest_query : List ℕ
  largest_query = libc.sprintf (text "select max(id) from vfm_io_module_attr;" ∷ [])

  -- A null value counts as an empty text.
  abbrev pub text_of : Option (List ℕ) → List ℕ
  text_of none = []
  text_of (some v) = v

  abbrev pub chosen : Mac → Name → (largest : Option (List ℕ)) → Discovered
  chosen m n largest = record {
    id = (libc.atoi (text_of largest) + 1) % 4294967296;
    io_module = (solicited m n).io_module;
  }

  -- A newly discovered IO module whose node name has no zero byte makes the insertion read on behind
  -- the name, where the two queries before it can be prepared and run, and find no module of its address and
  -- the largest id, or a null value for an empty table, and where the insertion can be prepared.
  pub new_module_overread :
      (m : Mac) (n : Name) (col : String) (largest : Option (List ℕ)) (cols : Row)
      (db db₁ db₂ : Store) (final : ℕ)
      → AllNonzero (name_bytes n)
      → sql.prepares db by_mac ≡ true
      → sql.binds db (record { query = by_mac; bound = [] }) (mac_bytes m) ≡ true
      → sql.run db (record { query = by_mac; bound = mac_bytes m ∷ [] })
        ≡ record { rows = []; final = final; after = db₁ }
      → sql.prepares db₁ largest_query ≡ true
      → sql.run db₁ (record { query = largest_query; bound = [] })
        ≡ record { rows = ((col, largest) ∷ cols) ∷ []; final = sqlite_done; after = db₂ }
      → sql.prepares db₂ (insert_query sql libc fresh (chosen m n largest)) ≡ true
      → add_en_io_module_to_db sql libc fresh db m n ≡ fault
  unfolding add_en_io_module_to_db
  new_module_overread (mac a b c d e f) n col none cols db db₁ db₂ final all p s r p₁ r₁ p₂ =
      rw (p, s, r, p₁, r₁, p₂, unterminated (name_bytes n) all)
  new_module_overread (mac a b c d e f) n col (some v) cols db db₁ db₂ final all p s r p₁ r₁ p₂ =
      rw (p, s, r, p₁, r₁, p₂, unterminated (name_bytes n) all)

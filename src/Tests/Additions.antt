-- ===== src/Tests/Additions.antt =====
-- The theorem on the ids of added adapters at a concrete database.
use vfm.Base.{ℕ, ◌≡◌, true, some, List, [], ◌∷◌, replicate, ◌==◌, if◌then◌else◌}
use vfm.Db.{Libc, Sqlite, Piece, number, Run}
use vfm.Db.Vadapter.{Attr}
use vfm.Db.Added.{max_of}

abbrev first_of : List ℕ → ℕ
first_of [] = 0
first_of (c ∷ _) = c

-- the id of a row that is inserted
abbrev id_of : List Piece → ℕ
id_of (_ ∷ (_ ∷ (number n ∷ _))) = n
id_of _ = 0

abbrev libc : Libc
libc = record {
  sprintf = λ _. 1 ∷ [];
  sprintf_over = λ p. 2 ∷ id_of p ∷ [];
  atoi = first_of;
  malloc = λ n. replicate n 170;
}

-- the database is the ids of its adapters
abbrev run_on : List ℕ → List ℕ → Run (List ℕ)
run_on db [] = record { rows = []; final = 1; after = db }
run_on db (c ∷ args) =
    if c == 1
    then record { rows = (("max(id)", some (max_of db ∷ [])) ∷ []) ∷ []; final = 101; after = db }
    else record { rows = []; final = 101; after = first_of args ∷ db }

abbrev sql : Sqlite (List ℕ)
sql = record {
  prepares = λ _ _. true;
  binds = λ _ _ _. true;
  run = λ db s. run_on db s.query;
  exec = λ db _. record { rows = []; final = 0; after = db };
}

abbrev Holds : List ℕ → List ℕ → Type 0
Holds db ids = db ≡ ids

abbrev attr0 : Attr
attr0 = record { id = 0; name = 65 ∷ replicate 63 0; desc = 66 ∷ replicate 63 0; protocol = 2 }

-- ===== src/Db/Column.antt =====
-- `strcmp(cols[i], "...") == 0` in src/vps/vfm/db.
use Prim.Native.String.{String}
use text.Mathlib.Text.{◌==◌}
use vfm.Base.{Bool}

unfoldable pub same_column : String → String → Bool
same_column a b = a == b

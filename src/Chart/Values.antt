-- ===== src/Chart/Values.antt =====
-- The values of a chart (values.go): YAML values as Go's `map[string]interface{}`.
use Prim.Native.Nat.{max}
use aws_ecommerce_k8s.Base.{ℕ, suc, Bool, true, false, Option, none, some, [], ◌∷◌, ◌≡◌, refl, ap}
use aws_ecommerce_k8s.Base.Bytes.{Bytes}
use aws_ecommerce_k8s.Base.Assoc.{Assoc}

-- Of a value that is neither nil nor a table the code asks nothing, so it stands as bytes.
mutual
  pub data Value : Type 0 where
    null : Value
    scalar : Bytes → Value
    table : Table → Value

  pub data Table : Type 0 where
    end : Table
    field : Bytes → Value → Table → Table

-- A table as a map, and back.
unfoldable pub entries : Table → Assoc Value
entries end = []
entries (field key val rest) = (key, val) ∷ entries rest

unfoldable pub table_of : Assoc Value → Table
table_of [] = end
table_of ((key, val) ∷ rest) = field key val (table_of rest)

pub entries-table_of : (m : Assoc Value) → entries (table_of m) ≡ m
unfolding entries table_of
entries-table_of [] = refl
entries-table_of ((key, val) ∷ rest) = ap (λ m. (key, val) ∷ m) (entries-table_of rest)

-- `v.(map[string]interface{})`
unfoldable pub as_table : Value → Option (Assoc Value)
unfolding entries
as_table (table t) = some (entries t)
as_table _ = none

unfoldable pub istable : Value → Bool
istable (table t) = true
istable _ = false

-- `v == nil`
unfoldable pub is_null : Value → Bool
is_null null = true
is_null _ = false

-- How deep tables are nested.
unfoldable mutual
  pub depth : Value → ℕ
  depth null = 0
  depth (scalar s) = 0
  depth (table t) = suc (depth_table t)

  pub depth_table : Table → ℕ
  depth_table end = 0
  depth_table (field key val rest) = max (depth val) (depth_table rest)

unfoldable pub depth_of : Assoc Value → ℕ
depth_of [] = 0
depth_of ((key, val) ∷ rest) = max (depth val) (depth_of rest)

pub depth_of-entries : (t : Table) → depth_of (entries t) ≡ depth_table t
unfolding depth_of entries depth
depth_of-entries end = refl
depth_of-entries (field key val rest) = ap (max (depth val)) (depth_of-entries rest)

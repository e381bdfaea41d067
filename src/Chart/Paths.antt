-- ===== src/Chart/Paths.antt =====
-- values.go of pkg/chart/v2/util: tables and values at a path of keys with dots between them.
pub mod Walk
use aws_ecommerce_k8s.Base.{
  Bool, true, false, not, Option, none, some, List, [], ◌∷◌, if◌then◌else◌,
}
use aws_ecommerce_k8s.Base.Bytes.{Bytes, bytes, str_eq, split, join}
use aws_ecommerce_k8s.Base.Assoc.{Assoc, lookup}
use aws_ecommerce_k8s.Action.Step.{Outcome, done, raised}
use aws_ecommerce_k8s.Chart.Values.{Value, as_table, istable}

-- `ErrNoTable`, `ErrNoValue` and the error for an empty path.
pub data ValueError : Type 0 where
  no_table no_value : Bytes → ValueError
  path_is_empty : ValueError

abbrev pub parse_path : Bytes → List Bytes
parse_path key = split key (bytes ".")

abbrev pub join_path : List Bytes → Bytes
join_path path = join path (bytes ".")

unfoldable pub table_or : Bytes → Option (Assoc Value) → Outcome ValueError (Assoc Value)
table_or simple none = raised (no_table simple)
table_or simple (some vv) = done vv

unfoldable pub table_lookup : Assoc Value → Bytes → Outcome ValueError (Assoc Value)
unfolding table_or as_table
table_lookup v simple = elim (lookup simple v) [
  | none ↦ raised (no_table simple)
  | some v2 ↦ table_or simple (as_table v2)
]

-- The loop of `Table`, which stops at the first error.
unfoldable pub table_loop : Assoc Value → List Bytes → Outcome ValueError (Assoc Value)
unfolding table_lookup
table_loop table [] = done table
table_loop table (n ∷ ns) = elim (table_lookup table n) [
  | done t ↦ table_loop t ns
  | raised e ↦ raised e
]

-- `Table`
unfoldable pub table_at : Assoc Value → Bytes → Outcome ValueError (Assoc Value)
unfolding table_loop split
table_at v name = table_loop v (parse_path name)

-- The value of a key, if it is there and no table.
unfoldable pub value_at : Assoc Value → Bytes → Outcome ValueError Value
unfolding istable lookup
value_at t key = elim (lookup key t) [
  | none ↦ raised (no_value key)
  | some k ↦ if not (istable k) then done k else raised (no_value key)
]

unfoldable pub value_in : Bytes → Outcome ValueError (Assoc Value) → Outcome ValueError Value
unfolding value_at
value_in key (done t) = value_at t key
value_in key (raised e) = raised (no_value key)

abbrev pub last_of : Bytes → List Bytes → Bytes
last_of p [] = p
last_of p (q ∷ ps) = last_of q ps

abbrev pub init_of : Bytes → List Bytes → List Bytes
init_of p [] = []
init_of p (q ∷ ps) = p ∷ init_of q ps

-- `pathValue`; `strings.Split` gives it one key at least.
unfoldable pub path_value_keys : Assoc Value → List Bytes → Outcome ValueError Value
unfolding value_in table_at join
path_value_keys v [] = raised (no_value [])
path_value_keys v (p ∷ []) = value_at v p
path_value_keys v (p ∷ q ∷ ps) =
    value_in (last_of p (q ∷ ps)) (table_at v (join_path (init_of p (q ∷ ps))))

-- `PathValue`
unfoldable pub path_value : Assoc Value → Bytes → Outcome ValueError Value
unfolding path_value_keys str_eq split
path_value v path =
    if str_eq path [] then raised path_is_empty else path_value_keys v (parse_path path)

-- ===== src/Chart/Paths/Walk.antt =====
-- `PathValue` walks from table to table, although it puts the path together and takes it apart again.
use aws_ecommerce_k8s.Base.{
  ℕ, Option, none, some, ◌≡◌, refl, ap, ◌∙◌, List, [], ◌∷◌, if◌then◌else◌, All,
}
use aws_ecommerce_k8s.Base.Bytes.{Bytes, bytes, str_eq, split}
use aws_ecommerce_k8s.Base.Split.{IsFree, split-IsFree, split-join}
use aws_ecommerce_k8s.Base.Assoc.{Assoc, lookup}
use aws_ecommerce_k8s.Action.Step.{Outcome, done, raised}
use aws_ecommerce_k8s.Chart.Values.{Value, table, null, scalar, entries, istable, as_table}
use aws_ecommerce_k8s.Chart.Paths.{
  ValueError, no_value, no_table, path_is_empty, table_lookup, table_loop, table_at, value_at,
  value_in, last_of, init_of, table_or, path_value_keys, path_value,
}

-- The table that a key has, if it has one, and the value that it has, if that is no table.
abbrev pub subtable : Option Value → Option (Assoc Value)
subtable (some (table t)) = some (entries t)
subtable _ = none

abbrev pub leaf : Option Value → Option Value
leaf none = none
leaf (some (table t)) = none
leaf (some v) = some v

abbrev pub final : Bytes → List Bytes → Bytes
final p [] = p
final p (q ∷ ps) = final q ps

abbrev answer : Bytes → Option Value → Outcome ValueError Value
answer key none = raised (no_value key)
answer key (some v) = done v

-- The walk along a path of one key or more: every key but the last leads to a table, and the last
-- one to a value that is no table. Where it fails the error names the last key.
unfoldable pub walk : Assoc Value → Bytes → List Bytes → Outcome ValueError Value
walk v p [] = answer p (leaf (lookup p v))
walk v p (q ∷ ps) = elim (subtable (lookup p v)) [
  | some t ↦ walk t q ps
  | none ↦ raised (no_value (final q ps))
]

value_at-leaf :
    (v : Assoc Value) (p : Bytes) (o : Option Value)
    → lookup p v ≡ o
    → value_at v p ≡ answer p (leaf o)
unfolding value_at istable
value_at-leaf v p none e = rw (e, value_at) refl
value_at-leaf v p (some (table t)) e = rw (e, value_at) refl
value_at-leaf v p (some null) e = rw (e, value_at) refl
value_at-leaf v p (some (scalar x)) e = rw (e, value_at) refl

abbrev found_or : Bytes → Option (Assoc Value) → Outcome ValueError (Assoc Value)
found_or key none = raised (no_table key)
found_or key (some t) = done t

table_lookup-subtable :
    (v : Assoc Value) (p : Bytes) (o : Option Value)
    → lookup p v ≡ o
    → table_lookup v p ≡ found_or p (subtable o)
unfolding table_lookup table_or as_table
table_lookup-subtable v p none e = rw (e, table_lookup) refl
table_lookup-subtable v p (some (table t)) e = rw (e, table_lookup) refl
table_lookup-subtable v p (some null) e = rw (e, table_lookup) refl
table_lookup-subtable v p (some (scalar x)) e = rw (e, table_lookup) refl

last_of-final : (p : Bytes) (ps : List Bytes) → last_of p ps ≡ final p ps
last_of-final p [] = refl
last_of-final p (q ∷ ps) = last_of-final q ps

table_loop-walk :
    (v : Assoc Value) (p : Bytes) (ps : List Bytes)
    → value_in (last_of p ps) (table_loop v (init_of p ps)) ≡ walk v p ps
unfolding table_loop walk value_in
table_loop-walk v p [] = value_at-leaf v p (lookup p v) refl
table_loop-walk v p (q ∷ ps) =
    rw (table_lookup-subtable v p (lookup p v) refl, value_in, table_loop)
      (elim (subtable (lookup p v))
        as (λ o.
          value_in (last_of q ps)
            (elim (found_or p o) [ done t ↦ table_loop t (init_of q ps) | raised e ↦ raised e ])
          ≡ elim o [ some t ↦ walk t q ps | none ↦ raised (no_value (final q ps)) ]) [
            | some t ↦ table_loop-walk t q ps
            | none ↦ ap (λ key. raised (no_value key)) (last_of-final q ps)
          ])

init_of-IsFree :
    (d : ℕ) (p q : Bytes) (ps : List Bytes)
    → All (IsFree d) (p ∷ q ∷ ps)
    → All (IsFree d) (p ∷ init_of q ps)
init_of-IsFree d p q [] h = (h.0, tt)
init_of-IsFree d p q (r ∷ ps) h = (h.0, init_of-IsFree d q r ps h.1)

path_value_keys-walk :
    (v : Assoc Value) (p : Bytes) (ps : List Bytes)
    → All (IsFree 46) (p ∷ ps)
    → path_value_keys v (p ∷ ps) ≡ walk v p ps
unfolding path_value_keys table_at walk
path_value_keys-walk v p [] h = value_at-leaf v p (lookup p v) refl
path_value_keys-walk v p (q ∷ ps) h =
    ap (λ keys. value_in (last_of q ps) (table_loop v keys))
      (split-join 46 p (init_of q ps) (init_of-IsFree 46 p q ps h))
    ∙ table_loop-walk v p (q ∷ ps)

-- The walk along the keys of a path.
abbrev pub walk_keys : Assoc Value → List Bytes → Outcome ValueError Value
walk_keys v [] = raised (no_value [])
walk_keys v (p ∷ ps) = walk v p ps

path_value_keys-walk_keys :
    (v : Assoc Value) (keys : List Bytes)
    → All (IsFree 46) keys
    → path_value_keys v keys ≡ walk_keys v keys
path_value_keys-walk_keys v [] h = unfold path_value_keys in refl
path_value_keys-walk_keys v (p ∷ ps) h = path_value_keys-walk v p ps h

-- `PathValue` refuses the empty path; for any other it walks along the keys between the dots: each key
-- but the last has to lead to a table, and the last to a value that is no table, which is the answer;
-- where this fails, the answer is an error that names the last key.
pub path_value_lem :
    (v : Assoc Value) (path : Bytes)
    → path_value v path
      ≡ (if str_eq path [] then raised path_is_empty else walk_keys v (split path (bytes ".")))
unfolding path_value
path_value_lem v path =
    ap (λ o. if str_eq path [] then raised path_is_empty else o)
      (path_value_keys-walk_keys v (split path (bytes ".")) (split-IsFree 46 path))

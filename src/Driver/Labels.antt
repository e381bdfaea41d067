-- ===== src/Driver/Labels.antt =====
-- labels.go: a set of labels is a map of strings.
pub mod Laws
use aws_ecommerce_k8s.Base.{Bool, true, false, none, some, List, [], ◌∷◌, map, if◌then◌else◌, not}
use aws_ecommerce_k8s.Base.Bytes.{Bytes, str_eq}
use aws_ecommerce_k8s.Base.Assoc.{Assoc, lookup, insert}

abbrev pub Labels : Type 0
Labels = Assoc Bytes

abbrev pub init : Labels
init = []

-- A key that is not there reads as the empty string.
unfoldable pub get : Labels → Bytes → Bytes
unfolding lookup
get lbs key = elim (lookup key lbs) [ none ↦ [] | some v ↦ v ]

unfoldable pub set : Labels → Bytes → Bytes → Labels
unfolding insert
set lbs key val = insert key val lbs

unfoldable pub keys : Labels → List Bytes
keys lbs = map (λ kv. kv.0) lbs

unfoldable pub match_keys : Labels → Labels → List Bytes → Bool
match_keys lbs other [] = true
match_keys lbs other (key ∷ ks) =
    let rest = match_keys lbs other ks in
    if not (str_eq (get lbs key) (get other key)) then false else rest

-- `match`: the labels have each value of the set.
unfoldable pub matches : Labels → Labels → Bool
unfolding match_keys get keys str_eq
matches lbs other = match_keys lbs other (keys other)

unfoldable pub from_map : Labels → Assoc Bytes → Labels
unfolding set
from_map lbs [] = lbs
from_map lbs ((k, v) ∷ kvs) = from_map (set lbs k v) kvs

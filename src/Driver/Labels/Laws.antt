-- ===== src/Driver/Labels/Laws.antt =====
-- labels.go: `fromMap` on a map that is new, or already there.
use aws_ecommerce_k8s.Base.{◌≡◌, refl, ◌∙◌, none, some, [], ◌∷◌, ◌++◌, arith}
use mathlib.Core.List.{append-nil, append_assoc}
use aws_ecommerce_k8s.Base.Bytes.{Bytes, str_eq_iff, str_eq_refl}
use aws_ecommerce_k8s.Base.Assoc.{lookup, insert, IsMap, lookup-insert, Every}
use aws_ecommerce_k8s.Driver.Labels.{Labels, set, from_map}

pub insert-fresh : (k v : Bytes) (m : Labels) → lookup k m ≡ none → insert k v m ≡ m ++ (k, v) ∷ []
unfolding lookup insert
insert-fresh k v [] h = refl
insert-fresh k v ((j, w) ∷ m) h = ground (arith, insert-fresh k v m)

insert-there : (k v : Bytes) (m : Labels) → lookup k m ≡ some v → insert k v m ≡ m
unfolding lookup insert
insert-there k v [] h = cc
insert-there k v ((j, w) ∷ m) h = ground (arith, insert-there k v m)

-- No key of the entries is in the map, and every entry is.
abbrev AllNew : Labels → Labels → Type 0
AllNew m kvs = Every (λ k v. lookup k m ≡ none) kvs

abbrev AllIn : Labels → Labels → Type 0
AllIn m kvs = Every (λ k v. lookup k m ≡ some v) kvs

AllNew-nil : (kvs : Labels) → AllNew [] kvs
AllNew-nil [] = tt
AllNew-nil ((k, v) ∷ kvs) = (unfold lookup in refl, AllNew-nil kvs)

AllNew-insert :
    (k v : Bytes) (m kvs : Labels) → lookup k kvs ≡ none → AllNew m kvs → AllNew (insert k v m) kvs
unfolding lookup
AllNew-insert k v m [] h n = tt
AllNew-insert k v m ((j, w) ∷ kvs) h n = (
  rw (lookup-insert k j v m) (ground (arith, str_eq_iff j k, str_eq_iff k j, n.0)),
  AllNew-insert k v m kvs (ground arith) n.1,
)

from_map_new : (m kvs : Labels) → AllNew m kvs → IsMap kvs → from_map m kvs ≡ m ++ kvs
unfolding from_map set
from_map_new m [] n d = rw append-nil
from_map_new m ((k, v) ∷ kvs) n d =
    from_map_new (insert k v m) kvs (AllNew-insert k v m kvs d.0 n.1) d.1
    ∙ rw (insert-fresh k v m n.0) (rw append_assoc)

pub from_map_self : (kvs : Labels) → IsMap kvs → from_map [] kvs ≡ kvs
from_map_self kvs d = from_map_new [] kvs (AllNew-nil kvs) d

AllIn-cons :
    (j w : Bytes) (m kvs : Labels) → lookup j kvs ≡ none → AllIn m kvs → AllIn ((j, w) ∷ m) kvs
unfolding lookup
AllIn-cons j w m [] h a = tt
AllIn-cons j w m ((k, v) ∷ kvs) h a =
    (ground (arith, str_eq_iff j k, str_eq_iff k j, a.0), AllIn-cons j w m kvs (ground arith) a.1)

AllIn-self : (m : Labels) → IsMap m → AllIn m m
unfolding lookup
AllIn-self [] d = tt
AllIn-self ((j, w) ∷ m) d = (rw (str_eq_refl j), AllIn-cons j w m m d.0 (AllIn-self m d.1))

from_map_in : (m kvs : Labels) → AllIn m kvs → from_map m kvs ≡ m
unfolding from_map set
from_map_in m [] a = refl
from_map_in m ((k, v) ∷ kvs) a = rw (insert-there k v m a.0) (from_map_in m kvs a.1)

pub from_map_again : (m : Labels) → IsMap m → from_map m m ≡ m
from_map_again m d = from_map_in m m (AllIn-self m d)

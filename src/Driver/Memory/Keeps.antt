-- ===== src/Driver/Memory/Keeps.antt =====
-- Each method of the in-memory driver keeps it well-formed.
use aws_ecommerce_k8s.Base.{refl, Option, none, some, [], ◌∷◌, Bool-cases, Option-cases, inl, inr}
use aws_ecommerce_k8s.Base.Bytes.{Bytes}
use aws_ecommerce_k8s.Release.Defs.{Release}
use aws_ecommerce_k8s.Driver.Records
use aws_ecommerce_k8s.Driver.Records.{Record, Records, new_record}
use aws_ecommerce_k8s.Driver.Memory.{
  Memory, records_of, ensure_namespace, set_namespace, namespace_of, create, create_in, update,
  update_in, delete, delete_in, key_name, remove_result,
}
use aws_ecommerce_k8s.Driver.Records.Laws.{get-nil}
use aws_ecommerce_k8s.Driver.Memory.Valid.{
  IsValid, IsHistory, IsOwn-new_record, IsHistory-add, IsHistory-remove, IsHistory-replace,
  ensure_namespace-IsValid, store-IsValid, records_of-IsHistory,
}
use aws_ecommerce_k8s.Driver.Memory.Spec.{create_in_first, create_in_fresh, create_in_taken}
use aws_ecommerce_k8s.Driver.Memory.Refine.{key_of}

set_namespace-IsValid : (ns : Bytes) (mem : Memory) → IsValid mem → IsValid (set_namespace ns mem)
set_namespace-IsValid ns mem v = record { namespaces = v.namespaces }

module _ (ns : Bytes) (rls : Release) (mem : Memory) (v : IsValid mem) where
  first-IsHistory : IsHistory rls.name (new_record (key_of rls) rls ∷ [])
  unfolding new_record
  first-IsHistory = record {
    own = (IsOwn-new_record rls.name rls refl, tt);
    distinct = (get-nil (key_of rls), tt);
    sorted = (tt, tt);
  }

  create_in-IsValid : IsValid (create_in ns (key_of rls) rls mem).1
  create_in-IsValid = elim (Option-cases (records_of ns rls.name mem)) [
    | inl missing ↦
        rw (create_in_first ns (key_of rls) rls mem missing)
          (store-IsValid ns mem v rls.name (new_record (key_of rls) rls ∷ []) first-IsHistory)
    | inr (recs, there) ↦
        let h = records_of-IsHistory ns mem v rls.name recs there in
        elim (Option-cases (Records.get recs (key_of rls))) [
          | inl fresh ↦ rw (create_in_fresh ns (key_of rls) rls mem recs there fresh) (
              store-IsValid ns mem v rls.name (Records.add recs (new_record (key_of rls) rls)).1 (
                IsHistory-add rls.name recs (new_record (key_of rls) rls) h
                  (IsOwn-new_record rls.name rls refl)))
          | inr (r, taken) ↦ rw (create_in_taken ns (key_of rls) rls mem recs there r taken) v
        ]
  ]

  update_in-IsValid : IsValid (update_in ns (key_of rls) rls mem).1
  unfolding update_in new_record
  update_in-IsValid = elim (Option-cases (records_of ns rls.name mem)) [
    | inl missing ↦ rw (missing, update_in) v
    | inr (recs, there) ↦ elim (Bool-cases (Records.exists recs (key_of rls))) [
      | inl stored ↦
          rw (there, update_in)
            (rw stored (
              store-IsValid ns mem v rls.name
                (Records.replace recs (key_of rls) (new_record (key_of rls) rls)).1
                (IsHistory-replace rls.name (new_record (key_of rls) rls)
                  (IsOwn-new_record rls.name rls refl) recs
                  (records_of-IsHistory ns mem v rls.name recs there))))
      | inr absent ↦ rw (there, update_in) (rw absent v)
    ]
  ]

remove_result-IsValid :
    (name : Bytes) (removed : Option Record × Records) (mem : Memory)
    → IsValid mem
    → IsHistory name removed.1
    → IsValid (remove_result name removed mem).1
unfolding remove_result
remove_result-IsValid name (none, recs) mem v h = v
remove_result-IsValid name (some r, recs) mem v h = store-IsValid mem.namespace mem v name recs h

delete_in-IsValid :
    (name key : Bytes) (mem : Memory) → IsValid mem → IsValid (delete_in name key mem).1
unfolding delete_in
delete_in-IsValid name key mem v = elim (Option-cases (records_of mem.namespace name mem)) [
  | inl missing ↦ rw (missing, delete_in) v
  | inr (recs, there) ↦
      rw (there, delete_in)
        (remove_result-IsValid name (Records.remove recs key) mem v (
          IsHistory-remove name recs key
            (records_of-IsHistory mem.namespace mem v name recs there)))
]

delete_any-IsValid : (key : Bytes) (mem : Memory) → IsValid mem → IsValid (delete key mem).1
unfolding delete
delete_any-IsValid key mem v = elim (Option-cases (key_name key)) [
  | inl invalid ↦ rw (invalid, delete) v
  | inr (name, valid) ↦ rw (valid, delete) (delete_in-IsValid name key mem v)
]

-- `Create` and `Update` of a release under the key that `makeKey` gives it, and `Delete` of any
-- key, keep the driver well-formed whether they succeed or not: each release's records have
-- ascending revisions, no key twice, the key, the name and the labels of what they hold, and no
-- name stands twice in a namespace.
pub operations-IsValid :
    (mem : Memory)
    → IsValid mem
    → ((rls : Release) → IsValid (create (key_of rls) rls mem).1)
      × ((rls : Release) → IsValid (update (key_of rls) rls mem).1)
      × ((key : Bytes) → IsValid (delete key mem).1)
unfolding create update
operations-IsValid mem v = (
  λ rls.
      let ns = namespace_of rls in
      create_in-IsValid ns rls (ensure_namespace ns (set_namespace ns mem))
        (ensure_namespace-IsValid ns (set_namespace ns mem) (set_namespace-IsValid ns mem v)),
  λ rls.
      let ns = namespace_of rls in
      update_in-IsValid ns rls (set_namespace ns mem) (set_namespace-IsValid ns mem v),
  λ key. delete_any-IsValid key mem v,
)

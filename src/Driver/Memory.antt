-- ===== src/Driver/Memory.antt =====
-- memory.go: the driver that keeps releases in memory, in one cache for each namespace. The locks
-- make each method one step, so they leave no trace here.
pub mod Valid
pub mod Spec
pub mod Refine
pub mod Keeps
pub mod Query
pub mod History
use aws_ecommerce_k8s.Base.{
  ℕ, suc, Bool, true, false, not, Option, none, some, List, [], ◌∷◌, ◌++◌, if◌then◌else◌,
}
use aws_ecommerce_k8s.Base.Bytes.{Bytes, bytes, str_eq, trim_prefix, split}
use aws_ecommerce_k8s.Base.Decimal.{atoi}
use aws_ecommerce_k8s.Base.Assoc.{Assoc, lookup, insert}
use aws_ecommerce_k8s.Release.Defs.{Release}
use aws_ecommerce_k8s.Driver.Errors.{Error, Result, ok, err, release_not_found, invalid_key}
use aws_ecommerce_k8s.Driver.Interface.{Driver}
use aws_ecommerce_k8s.Driver.Labels
use aws_ecommerce_k8s.Driver.Records
use aws_ecommerce_k8s.Driver.Records.{Record, Records, new_record}

abbrev pub MemReleases : Type 0
MemReleases = Assoc Records

pub record Memory : Type 0 where
  pub namespace : Bytes
  pub cache : Assoc MemReleases

abbrev pub memory_driver_name : Bytes
memory_driver_name = bytes "Memory"

abbrev pub default_namespace : Bytes
default_namespace = bytes "default"

abbrev pub new_memory : Memory
new_memory = record { namespace = bytes "default"; cache = [] }

abbrev pub set_namespace : Bytes → Memory → Memory
set_namespace ns mem = record mem { namespace = ns }

-- `mem.cache[ns]`: a namespace that is not there reads as an empty map.
unfoldable pub releases_in : Bytes → Memory → MemReleases
releases_in ns mem = elim (lookup ns mem.cache) [ none ↦ [] | some rels ↦ rels ]

-- `mem.cache[ns][name]`
unfoldable pub records_of : Bytes → Bytes → Memory → Option Records
records_of ns name mem = lookup name (releases_in ns mem)

unfoldable pub two_elems : List Bytes → Option Bytes
unfolding atoi
two_elems (name ∷ ver ∷ []) = elim (atoi ver) [ none ↦ none | some v ↦ some name ]
two_elems _ = none

-- The release name in a key: what the key says before ".v" and a number.
unfoldable pub key_name : Bytes → Option Bytes
unfolding trim_prefix split two_elems
key_name key = two_elems (split (trim_prefix key (bytes "sh.helm.release.v1.")) (bytes ".v"))

unfoldable pub found : Option Record → Result Release
found none = err release_not_found
found (some r) = ok r.rls

get_of : Bytes → Option Records → Result Release
unfolding found
get_of key none = err release_not_found
get_of key (some recs) = found (Records.get recs key)

unfoldable pub get : Bytes → Memory → Result Release
unfolding get_of
get key mem = elim (key_name key) [
  | none ↦ err invalid_key
  | some name ↦ get_of key (records_of mem.namespace name mem)
]

-- The releases that the loop over one release's records appends.
unfoldable pub collect_records : (Record → Bool) → Records → List Release
collect_records pick [] = []
collect_records pick (rec ∷ recs) =
    let ls = collect_records pick recs in if pick rec then rec.rls ∷ ls else ls

unfoldable pub collect_releases : (Record → Bool) → MemReleases → List Release
collect_releases pick [] = []
collect_releases pick ((name, recs) ∷ rels) =
    collect_records pick recs ++ collect_releases pick rels

-- The loop over the namespaces, which stops after one where the driver is bound to a namespace.
unfoldable pub collect_namespaces : (Record → Bool) → Memory → Assoc MemReleases → List Release
collect_namespaces pick mem [] = []
collect_namespaces pick mem ((ns, rels) ∷ rest) =
    let others = collect_namespaces pick mem rest in
    if not (str_eq mem.namespace [])
    then collect_releases pick (releases_in mem.namespace mem)
    else collect_releases pick (releases_in ns mem) ++ others

-- The loops of `List` and `Query`.
unfoldable pub collect : (Record → Bool) → Memory → List Release
unfolding collect_namespaces
collect pick mem = collect_namespaces pick mem mem.cache

unfoldable pub list : (Release → Bool) → Memory → Result (List Release)
list filter mem = ok (collect (λ rec. filter rec.rls) mem)

unfoldable pub or_not_found : List Release → Result (List Release)
or_not_found [] = err release_not_found
or_not_found (rel ∷ ls) = ok (rel ∷ ls)

unfoldable pub query : Assoc Bytes → Memory → Result (List Release)
unfolding or_not_found
query keyvals mem =
    let lbs = Labels.from_map Labels.init keyvals in
    or_not_found (collect (λ rec. Labels.matches rec.lbs lbs) mem)

-- An unset namespace is the default one.
abbrev pub namespace_of : Release → Bytes
namespace_of rls = if str_eq rls.namespace [] then default_namespace else rls.namespace

-- `mem.cache[ns][name] = recs`
unfoldable pub store : Bytes → Bytes → Records → Memory → Memory
store ns name recs mem = record mem {
  cache = insert ns (insert name recs (releases_in ns mem)) mem.cache;
}

-- `if _, ok := mem.cache[ns]; !ok { mem.cache[ns] = memReleases{} }`
unfoldable pub ensure_namespace : Bytes → Memory → Memory
ensure_namespace ns mem = elim (lookup ns mem.cache) [
  | none ↦ record mem { cache = insert ns [] mem.cache }
  | some rels ↦ mem
]

add_result : Bytes → Release → Option Error × Records → Memory → Option Error × Memory
add_result ns rls (some e, recs) mem = (some e, mem)
add_result ns rls (none, recs) mem = (none, store ns rls.name recs mem)

unfoldable pub create_in : Bytes → Bytes → Release → Memory → Option Error × Memory
unfolding add_result
create_in ns key rls mem = elim (records_of ns rls.name mem) [
  | none ↦ (none, store ns rls.name (new_record key rls ∷ []) mem)
  | some recs ↦ add_result ns rls (Records.add recs (new_record key rls)) mem
]

unfoldable pub create : Bytes → Release → Memory → Option Error × Memory
unfolding create_in
create key rls mem =
    let ns = namespace_of rls in create_in ns key rls (ensure_namespace ns (set_namespace ns mem))

unfoldable pub update_in : Bytes → Bytes → Release → Memory → Option Error × Memory
update_in ns key rls mem = elim (records_of ns rls.name mem) [
  | none ↦ (some release_not_found, mem)
  | some rs ↦
      if Records.exists rs key
      then (none, store ns rls.name (Records.replace rs key (new_record key rls)).1 mem)
      else (some release_not_found, mem)
]

unfoldable pub update : Bytes → Release → Memory → Option Error × Memory
unfolding update_in
update key rls mem = let ns = namespace_of rls in update_in ns key rls (set_namespace ns mem)

unfoldable pub remove_result : Bytes → Option Record × Records → Memory → Result Release × Memory
remove_result name (none, recs) mem = (err release_not_found, mem)
remove_result name (some r, recs) mem = (ok r.rls, store mem.namespace name recs mem)

unfoldable pub delete_in : Bytes → Bytes → Memory → Result Release × Memory
unfolding remove_result
delete_in name key mem = elim (records_of mem.namespace name mem) [
  | none ↦ (err release_not_found, mem)
  | some recs ↦ remove_result name (Records.remove recs key) mem
]

unfoldable pub delete : Bytes → Memory → Result Release × Memory
unfolding delete_in
delete key mem = elim (key_name key) [
  | none ↦ (err invalid_key, mem)
  | some name ↦ delete_in name key mem
]

abbrev pub memory_driver : Driver Memory
memory_driver = record {
  create = create;
  update = update;
  delete = delete;
  get = get;
  list = list;
  query = query;
  name = memory_driver_name;
}

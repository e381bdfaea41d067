-- ===== src/Driver/Memory/Refine.antt =====
-- memory.go keeps the promises of the interfaces in driver.go.
use aws_ecommerce_k8s.Base.{
  ◌≡◌, refl, ◌∙◌, Bool, true, false, Option, none, some, if◌then◌else◌, is_some, arith, ◌&&◌,
}
use aws_ecommerce_k8s.Base.Bytes.{Bytes, bytes, str_eq, str_eq_iff, contains}
use aws_ecommerce_k8s.Base.Int.{ℤ, eq_int}
use aws_ecommerce_k8s.Base.Decimal.{IsInt64}
use aws_ecommerce_k8s.Release.Defs.{Release}
use aws_ecommerce_k8s.Driver.Errors.{
  Result, ok, err, release_not_found, release_exists, invalid_key,
}
use aws_ecommerce_k8s.Driver.Records.{Record, new_record}
use aws_ecommerce_k8s.Driver.Memory.{
  Memory, ensure_namespace, set_namespace, namespace_of, create, update, delete, get, found,
}
use aws_ecommerce_k8s.Driver.Memory.Valid.{IsValid, ensure_namespace-IsValid}
use aws_ecommerce_k8s.Driver.Memory.Spec.{
  held, find, view, find-ensure, find-set_namespace, create_in_result, find-create_in,
  update_in_result, find-update_in, delete_in_result, find-delete_in,
}
use aws_ecommerce_k8s.Storage.Key.{make_key}
use aws_ecommerce_k8s.Storage.Key.Laws.{key_name-make_key, key_name-ambiguous, str_eq-make_key}

abbrev pub key_of : Release → Bytes
key_of rls = make_key rls.name rls.version

abbrev pub same_revision : Bytes → Bytes → ℤ → Bytes → Bytes → ℤ → Bool
same_revision ns name version ns' name' version' =
    str_eq ns ns' && (str_eq name name' && eq_int version version')

abbrev pub or_release : Option Release → Release → Release
or_release none rls = rls
or_release (some old) rls = old

-- The revision under which a release is stored.
abbrev pub revision_of : Release → Memory → Option Release
revision_of rls mem = view (namespace_of rls) rls.name rls.version mem

abbrev pub held_or_not_found : Option Release → Result Release
held_or_not_found none = err release_not_found
held_or_not_found (some rls) = ok rls

found-held : (o : Option Record) → found o ≡ held_or_not_found (held o)
unfolding found
found-held none = refl
found-held (some r) = refl

abbrev ready : Release → Memory → Memory
ready rls mem = ensure_namespace (namespace_of rls) (set_namespace (namespace_of rls) mem)

module _ (rls : Release) (mem : Memory) (v : IsValid mem) where
  ready-IsValid : IsValid (ready rls mem)
  ready-IsValid =
      ensure_namespace-IsValid (namespace_of rls) (set_namespace (namespace_of rls) mem)
        (record { namespaces = v.namespaces })

  find-ready : (ns name key : Bytes) → find ns name key (ready rls mem) ≡ find ns name key mem
  find-ready ns name key =
      find-ensure (namespace_of rls) ns name key (set_namespace (namespace_of rls) mem)
      ∙ find-set_namespace (namespace_of rls) ns name key mem

  -- In a well-formed driver, `Create` of a release under its own key refuses with ErrReleaseExists
  -- exactly when its namespace, name and revision are taken; otherwise it stores the release there,
  -- and either way every other revision is what it was.
  pub create-refines :
      ((create (key_of rls) rls mem).0
        ≡ (if is_some (revision_of rls mem) then some release_exists else none))
      × ((ns name : Bytes) (version : ℤ)
          → view ns name version (create (key_of rls) rls mem).1 ≡ (
              if same_revision (namespace_of rls) rls.name rls.version ns name version
              then some (or_release (revision_of rls mem) rls)
              else view ns name version mem))
  unfolding create view new_record
  create-refines =
      let ns = namespace_of rls in
      let key = key_of rls in
      (
        ground (
          arith,
          create_in_result ns key rls (ready rls mem) ready-IsValid,
          find-ready ns rls.name key,
        ),
        λ ns' name version. ground (
          arith,
          find-create_in ns key rls (ready rls mem) ready-IsValid ns' name (make_key name version),
          find-ready ns rls.name key,
          find-ready ns' name (make_key name version),
          str_eq-make_key rls.name rls.version version,
          str_eq_iff rls.name name,
          str_eq_iff ns ns',
        ),
      )

  -- In a well-formed driver, `Update` of a release under its own key fails with
  -- ErrReleaseNotFound exactly when its namespace, name and revision hold nothing, and then stores
  -- nothing; otherwise it replaces the release there. Every other revision is what it was.
  pub update-refines :
      ((update (key_of rls) rls mem).0
        ≡ (if is_some (revision_of rls mem) then none else some release_not_found))
      × ((ns name : Bytes) (version : ℤ)
          → view ns name version (update (key_of rls) rls mem).1 ≡ (
              if same_revision (namespace_of rls) rls.name rls.version ns name version
                && is_some (revision_of rls mem)
              then some rls
              else view ns name version mem))
  unfolding update view new_record
  update-refines =
      let ns = namespace_of rls in
      let key = key_of rls in
      let mem' = set_namespace ns mem in
      (
        ground (arith, update_in_result ns key rls mem', find-set_namespace ns ns rls.name key mem),
        λ ns' name version. ground (
          arith,
          find-update_in ns key rls mem' ns' name (make_key name version),
          find-set_namespace ns ns rls.name key mem,
          find-set_namespace ns ns' name (make_key name version) mem,
          str_eq-make_key rls.name rls.version version,
          str_eq_iff rls.name name,
          str_eq_iff ns ns',
        ),
      )

module _ (name : Bytes) (version : ℤ) (plain : contains name (bytes ".v") ≡ false)
    (fits : IsInt64 version) (mem : Memory) where
  -- For a release name without ".v" in it and a 64-bit revision, `Get` answers from the driver's
  -- own namespace: the release stored at the name and revision, or ErrReleaseNotFound.
  pub get-refines :
      get (make_key name version) mem ≡ held_or_not_found (view mem.namespace name version mem)
  unfolding get view find found
  get-refines = ground (arith, key_name-make_key name version plain fits)

  module _ (v : IsValid mem) where
    -- In a well-formed driver, for a release name without ".v" in it and a 64-bit revision,
    -- `Delete` returns the release stored at the name and revision in the driver's namespace, or
    -- ErrReleaseNotFound; afterwards nothing is stored there, and every other revision is what it
    -- was.
    pub delete-refines :
        ((delete (make_key name version) mem).0
          ≡ held_or_not_found (view mem.namespace name version mem))
        × ((ns' name' : Bytes) (version' : ℤ)
            → view ns' name' version' (delete (make_key name version) mem).1 ≡ (
                if same_revision mem.namespace name version ns' name' version'
                then none
                else view ns' name' version' mem))
    unfolding delete view
    delete-refines =
        let key = make_key name version in
        (
          ground (
            arith,
            key_name-make_key name version plain fits,
            delete_in_result name key mem v,
            found-held (find mem.namespace name key mem),
          ),
          λ ns' name' version'. ground (
            arith,
            key_name-make_key name version plain fits,
            find-delete_in name key mem v ns' name' (make_key name' version'),
            str_eq-make_key name version version',
            str_eq_iff name name',
            str_eq_iff mem.namespace ns',
          ),
        )

-- For a release name with ".v" in it, `Get` and `Delete` refuse the key that `makeKey` builds with
-- ErrInvalidKey whatever is stored, and `Delete` changes nothing.
pub ambiguous_name_refused :
    (name : Bytes) (version : ℤ) (mem : Memory)
    → contains name (bytes ".v") ≡ true
    → (get (make_key name version) mem ≡ err invalid_key)
      × (delete (make_key name version) mem ≡ (err invalid_key, mem))
unfolding get delete
ambiguous_name_refused name version mem h = (
  ground (arith, key_name-ambiguous name version h),
  ground (arith, key_name-ambiguous name version h),
)

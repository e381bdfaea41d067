-- ===== src/Tests/Driver.antt =====
-- Runs of the in-memory driver, and its results at small stores.
use aws_ecommerce_k8s.Base.{◌≡◌, refl, none, some, if◌then◌else◌, ◌&&◌, is_some, arith}
use aws_ecommerce_k8s.Base.Bytes.{Bytes, bytes}
use aws_ecommerce_k8s.Base.Int.{ℤ, pos}
use aws_ecommerce_k8s.Release.Defs.{Release}
use aws_ecommerce_k8s.Release.Status.{status_deployed}
use aws_ecommerce_k8s.Driver.Errors.{ok, err, release_exists, release_not_found, invalid_key}
use aws_ecommerce_k8s.Driver.Memory.{create, update, get, delete, namespace_of}
use aws_ecommerce_k8s.Driver.Memory.Valid.{IsValid}
use aws_ecommerce_k8s.Driver.Memory.Spec.{view}
use aws_ecommerce_k8s.Driver.Memory.Keeps.{operations-IsValid}
use aws_ecommerce_k8s.Driver.Memory.Refine.{
  key_of, create-refines, update-refines, get-refines, delete-refines, ambiguous_name_refused,
  revision_of, same_revision, or_release, held_or_not_found,
}
use aws_ecommerce_k8s.Storage.Key.{make_key}
use aws_ecommerce_k8s.Tests.Data.{release, second, third, shop, two, two-IsValid, runs}

create_twice : (create (key_of second) second two).0 ≡ some release_exists
unfolding runs
create_twice = refl

get_second : get (make_key shop (pos 2)) two ≡ ok second
unfolding runs
get_second = refl

create-refines_example :
    ((create (key_of third) third two).0
      ≡ (if is_some (revision_of third two) then some release_exists else none))
    × ((ns name : Bytes) (version : ℤ)
        → view ns name version (create (key_of third) third two).1 ≡ (
            if same_revision (namespace_of third) third.name third.version ns name version
            then some (or_release (revision_of third two) third)
            else view ns name version two))
create-refines_example = create-refines third two two-IsValid

update-refines_example :
    ((update (key_of second) second two).0
      ≡ (if is_some (revision_of second two) then none else some release_not_found))
    × ((ns name : Bytes) (version : ℤ)
        → view ns name version (update (key_of second) second two).1 ≡ (
            if same_revision (namespace_of second) second.name second.version ns name version
              && is_some (revision_of second two)
            then some second
            else view ns name version two))
update-refines_example = update-refines second two two-IsValid

get-refines_example :
    get (make_key shop (pos 2)) two ≡ held_or_not_found (view two.namespace shop (pos 2) two)
get-refines_example = get-refines shop (pos 2) (unfold runs in refl) (omega arith) two

delete-refines_example :
    ((delete (make_key shop (pos 2)) two).0
      ≡ held_or_not_found (view two.namespace shop (pos 2) two))
    × ((ns' name' : Bytes) (version' : ℤ)
        → view ns' name' version' (delete (make_key shop (pos 2)) two).1 ≡ (
            if same_revision two.namespace shop (pos 2) ns' name' version'
            then none
            else view ns' name' version' two))
delete-refines_example =
    delete-refines shop (pos 2) (unfold runs in refl) (omega arith) two two-IsValid

-- A release named "shop.v1" can be stored, and then neither read nor deleted.
abbrev dotted : Release
dotted = release (bytes "shop.v1") 1 status_deployed

dotted_is_stored : (create (key_of dotted) dotted two).0 ≡ none
unfolding runs
dotted_is_stored = refl

ambiguous_name_refused_example :
    let mem = (create (key_of dotted) dotted two).1 in
    (get (make_key (bytes "shop.v1") (pos 1)) mem ≡ err invalid_key)
    × (delete (make_key (bytes "shop.v1") (pos 1)) mem ≡ (err invalid_key, mem))
ambiguous_name_refused_example =
    ambiguous_name_refused (bytes "shop.v1") (pos 1) (create (key_of dotted) dotted two).1
      (unfold runs in refl)

operations-IsValid_example :
    ((rls : Release) → IsValid (create (key_of rls) rls two).1)
    × ((rls : Release) → IsValid (update (key_of rls) rls two).1)
    × ((key : Bytes) → IsValid (delete key two).1)
operations-IsValid_example = operations-IsValid two two-IsValid

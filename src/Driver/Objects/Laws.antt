-- ===== src/Driver/Objects/Laws.antt =====
-- What the Kubernetes API documents of the calls, and what an object of a release holds.
use aws_ecommerce_k8s.Base.{
  true, false, ◌≡◌, refl, ap, ◌∙◌, Option, none, some, [], is_some, if◌then◌else◌,
}
use aws_ecommerce_k8s.Base.Bytes.{Bytes, bytes, str_eq}
use aws_ecommerce_k8s.Base.Assoc.{IsMap}
use aws_ecommerce_k8s.Release.Defs.{Release}
use aws_ecommerce_k8s.Driver.Errors.{Error, ok, err}
use aws_ecommerce_k8s.Driver.Labels
use aws_ecommerce_k8s.Driver.Labels.Laws.{from_map_self, from_map_again}
use aws_ecommerce_k8s.Driver.Codec.{is_system_label, filter_system_labels, contains_system_labels}
use aws_ecommerce_k8s.Driver.Codec.Laws.{
  user_labels, user-set_system, user-from_map, filter_system_labels-user,
}
use aws_ecommerce_k8s.Driver.Objects.{Object, ObjectClient, object_labels, stamped}

-- The API keeps one object under a name: `stored` says which. It may refuse to create or to update an
-- object, for its labels, its size or anything else, and then changes nothing. That it answers "already
-- exists" means that the name is taken, and that it creates an object that the name was free; it updates
-- what is there. An error for a name that is missing is recognised as such.
pub record IsObjectClient {S : Type 0} (client : ObjectClient S)
    (stored : Bytes → S → Option Object) : Type 0 where
  pub get_there :
      (key : Bytes) (s : S) (o : Object) → stored key s ≡ some o → client.get key s ≡ ok o
  pub get_missing :
      (key : Bytes) (s : S)
      → stored key s ≡ none
      → (e : Error) × (client.get key s ≡ err e) × (client.is_not_found e ≡ true)
  pub create_done :
      (o : Object) (s : S)
      → (client.create o s).0 ≡ none
      → (stored o.name s ≡ none)
        × ((key : Bytes)
            → stored key (client.create o s).1
              ≡ (if str_eq o.name key then some o else stored key s))
  pub create_refused :
      (o : Object) (s : S) (e : Error)
      → (client.create o s).0 ≡ some e
      → (key : Bytes) → stored key (client.create o s).1 ≡ stored key s
  pub create_exists :
      (o : Object) (s : S) (e : Error)
      → (client.create o s).0 ≡ some e
      → client.is_already_exists e ≡ true
      → is_some (stored o.name s) ≡ true
  pub update_done :
      (o : Object) (s : S)
      → (client.update o s).0 ≡ none
      → (is_some (stored o.name s) ≡ true)
        × ((key : Bytes)
            → stored key (client.update o s).1
              ≡ (if str_eq o.name key then some o else stored key s))
  pub update_refused :
      (o : Object) (s : S) (e : Error)
      → (client.update o s).0 ≡ some e
      → (key : Bytes) → stored key (client.update o s).1 ≡ stored key s
  pub delete_there :
      (key : Bytes) (s : S) (o : Object) → stored key s ≡ some o → (client.delete key s).0 ≡ none
  pub stored-delete :
      (key : Bytes) (s : S) (k : Bytes)
      → stored k (client.delete key s).1 ≡ (if str_eq key k then none else stored k s)

-- A release that the drivers give back as it is: its labels are a map of none of the system's.
abbrev pub IsUsers : Release → Type 0
IsUsers rls = IsMap rls.labels × (contains_system_labels rls.labels ≡ false)

user-start :
    (rls : Release) → IsUsers rls → user_labels (Labels.from_map [] rls.labels) ≡ rls.labels
unfolding user_labels
user-start rls (d, u) = user-from_map [] rls.labels u ∙ from_map_self rls.labels d

-- The labels that a release is stored with give back its own.
pub filter_system_labels-object_labels :
    (rls : Release) (label time : Bytes)
    → is_system_label label ≡ true
    → IsUsers rls
    → filter_system_labels (object_labels rls (stamped label rls time)) ≡ rls.labels
unfolding object_labels stamped is_system_label str_eq
filter_system_labels-object_labels rls label time h (d, u) =
    filter_system_labels-user _ rls.labels
      (user-set_system (bytes "version") _ _ refl
        ∙ user-set_system (bytes "status") _ _ refl
        ∙ user-set_system (bytes "owner") _ _ refl
        ∙ user-set_system (bytes "name") _ _ refl
        ∙ user-from_map _ rls.labels u
        ∙ ap (λ m. Labels.from_map m rls.labels)
            (user-set_system label time _ h ∙ user-start rls (d, u))
        ∙ from_map_again rls.labels d)
      d

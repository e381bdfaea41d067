-- ===== src/Storage/Sound.antt =====
-- storage.go over any driver for the revisions of a release: what `Create` and `Last` keep to.
use mathlib.Core.List.{reverse, reverse-cons}
use mathlib.Core.Path.{subst}
use aws_ecommerce_k8s.Base.{
  ◌≡◌, sym, true, Option, none, some, List, [], ◌∷◌, is_some, All, All-append, All-both, Bool-cases,
  inl, inr, zero, suc, ℕ, leb, length,
}
use aws_ecommerce_k8s.Base.Bytes.{Bytes}
use aws_ecommerce_k8s.Base.Int.{ℤ, pos, negsuc}
use aws_ecommerce_k8s.Base.Sort.{sort_by, sort_by-All}
use aws_ecommerce_k8s.Release.Defs.{Release}
use aws_ecommerce_k8s.Release.Sorter.{reverse_sorted, sort_by_revision, by_revision}
use aws_ecommerce_k8s.Driver.Errors.{
  Error, Result, ok, err, is_release_not_found, no_revision, Result-cases,
}
use aws_ecommerce_k8s.Driver.Interface.{Driver}
use aws_ecommerce_k8s.Driver.History.{IsRevision, IsHistoryDriver}
use aws_ecommerce_k8s.Storage.Prune.{to_delete}
use aws_ecommerce_k8s.Storage.Selectors.{owned_by_helm}
use aws_ecommerce_k8s.Storage.{
  Storage, newest_or, delete, delete_release_version, delete_each, prune, prune_history,
  remove_least_recent, create_driver, create_pruned, create_with, create, history, last,
  last_deployed_or, deployed,
}

pub reverse-All : (P : Release → Type 0) (l : List Release) → All P l → All P (reverse l)
reverse-All P [] h = tt
reverse-All P (x ∷ l) h =
    rw (reverse-cons x l) (All-append P (reverse l) (x ∷ []) (reverse-All P l h.1) (h.0, tt))

-- A property of a result that is one.
abbrev pub Holds : {A : Type 0} → (A → Type 0) → Result A → Type 0
Holds P (ok a) = P a
Holds P (err e) = Unit

head-All :
    (P : Release → Type 0) (e : Error) (l : List Release)
    → All P l
    → Holds P (elim l [ [] ↦ err e | rel ∷ rest ↦ ok rel ])
head-All P e [] h = tt
head-All P e (x ∷ l) h = h.0

newest_or-Holds :
    (P : Release → Type 0) (e : Error) (r : Result (List Release))
    → Holds (All P) r
    → Holds P (newest_or e r)
unfolding newest_or reverse_sorted sort_by_revision
newest_or-Holds P e (ok l) h =
    head-All P e (reverse (sort_by by_revision l))
      (reverse-All P (sort_by by_revision l) (sort_by-All by_revision P l h))
newest_or-Holds P e (err x) h = tt

module _ {D : Type 0} (drv : Driver D) (name ns : Bytes) (Sound : D → Type 0)
    (at : ℤ → D → Option Release) (laws : IsHistoryDriver drv name ns Sound at) where
  -- The last revision is a revision of the release, and stored.
  pub last-Holds :
      (s : Storage D)
      → Sound s.driver
      → Holds
          (λ rel. IsRevision name ns rel × (at rel.version s.driver ≡ some rel))
          (last drv name s)
  unfolding last history
  last-Holds s sound =
      newest_or-Holds (λ rel. IsRevision name ns rel × (at rel.version s.driver ≡ some rel))
        (no_revision name) (drv.query (owned_by_helm name) s.driver)
        (elim (Result-cases (drv.query (owned_by_helm name) s.driver)) [
          | inl (rels, asked) ↦ rw asked (
              All-both (IsRevision name ns) _ rels (laws.owned-IsRevision s.driver rels sound asked)
                (laws.owned-stored s.driver rels sound asked))
          | inr (e, asked) ↦ rw asked tt
        ])

  delete_each-Sound :
      (rels : List Release) (s : Storage D)
      → Sound s.driver
      → Sound (delete_each drv name rels s).1.driver
  unfolding delete_each delete_release_version delete
  delete_each-Sound [] s sound = sound
  delete_each-Sound (rel ∷ rels) s sound =
      delete_each-Sound rels _ (laws.delete-Sound _ s.driver sound)

  prune-Sound :
      (maximum : ℕ) (h : List Release) (l : Result (Option Release)) (s : Storage D)
      → Sound s.driver
      → Sound (prune drv name maximum h l s).1.driver
  unfolding prune
  prune-Sound maximum h (err e) s sound = sound
  prune-Sound maximum h (ok l) s sound =
      delete_each-Sound (to_delete maximum (sort_by_revision h) l) s sound

  prune_history-Sound :
      (maximum : ℕ) (h : Result (List Release)) (s : Storage D)
      → Sound s.driver
      → Sound (prune_history drv name maximum h s).1.driver
  unfolding prune_history
  prune_history-Sound maximum (err e) s sound = sound
  prune_history-Sound maximum (ok h) s sound = elim (Bool-cases (leb (length h) maximum)) [
    | inl few ↦ rw few sound
    | inr many ↦ rw many (prune-Sound maximum h (last_deployed_or (deployed drv name s)) s sound)
  ]

  remove_least_recent-Sound :
      (maximum : ℤ) (s : Storage D)
      → Sound s.driver
      → Sound (remove_least_recent drv name maximum s).1.driver
  unfolding remove_least_recent
  remove_least_recent-Sound (negsuc n) s sound = sound
  remove_least_recent-Sound (pos n) s sound = prune_history-Sound n (history drv name s) s sound

  -- A creation that succeeds stores the release.
  abbrev pub IsCreated : Release → Option Error × Storage D → Type 0
  IsCreated rls after =
      Sound after.1.driver × (after.0 ≡ none → is_some (at rls.version after.1.driver) ≡ true)

  module _ (rls : Release) (own : IsRevision name ns rls) where
    create_driver-IsCreated :
        (s : Storage D) → Sound s.driver → IsCreated rls (create_driver drv rls s)
    unfolding create_driver
    create_driver-IsCreated s sound =
        (laws.create-Sound rls s.driver own sound, λ _. laws.at-create rls s.driver own sound)

    create_pruned-IsCreated :
        (pruned : Option Error × Storage D)
        → Sound pruned.1.driver
        → IsCreated rls (create_pruned drv rls pruned)
    unfolding create_pruned
    create_pruned-IsCreated (none, s) sound = create_driver-IsCreated s sound
    create_pruned-IsCreated (some e, s) sound = elim (Bool-cases (is_release_not_found e)) [
      | inl missing ↦ rw missing (create_driver-IsCreated s sound)
      | inr failed ↦ rw failed (sound, λ bad. cc)
    ]

    create_with-IsCreated :
        (maximum : ℤ) (s : Storage D)
        → Sound s.driver
        → IsCreated rls (create_with drv maximum rls s)
    unfolding create_with
    create_with-IsCreated (pos (suc n)) s sound = create_pruned-IsCreated _ (
        subst (λ m. Sound (remove_least_recent drv m (pos n) s).1.driver) (sym own.0)
          (remove_least_recent-Sound (pos n) s sound))
    create_with-IsCreated (pos zero) s sound = create_driver-IsCreated s sound
    create_with-IsCreated (negsuc n) s sound = create_driver-IsCreated s sound

    -- Create keeps the store sound, and stores the release where it succeeds.
    pub create-IsCreated : (s : Storage D) → Sound s.driver → IsCreated rls (create drv rls s)
    unfolding create
    create-IsCreated s sound = create_with-IsCreated s.max_history s sound

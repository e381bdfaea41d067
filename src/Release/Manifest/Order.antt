-- ===== src/Release/Manifest/Order.antt =====
-- manifest.go: the documents of a stream, by their keys.
use mathlib.Core.List.{append-nil, append_assoc}
use aws_ecommerce_k8s.Base.{
  ℕ, suc, ◌+◌, ◌^◌, ◌≤◌, ◌<◌, ◌==◌, ◌≡◌, refl, sym, ap, ◌∙◌, false, not, none, List, [], ◌∷◌, ◌++◌,
  map, keep_if, length, drop, All, arith, Bool-cases, inl, inr,
}
use aws_ecommerce_k8s.Base.Bytes.{Bytes, bytes, str_eq, str_eq_iff, str_eq_refl}
use aws_ecommerce_k8s.Base.Int.{pos}
use aws_ecommerce_k8s.Base.Decimal.{itoa, atoi-itoa, itoa_inj}
use aws_ecommerce_k8s.Base.Assoc.{Assoc, lookup, insert, lookup-insert}
use aws_ecommerce_k8s.Base.Sort.{sort_by, IsSortedBy, sort_by-fixed}
use aws_ecommerce_k8s.Base.Space.{trim_space}
use aws_ecommerce_k8s.Driver.Labels
use aws_ecommerce_k8s.Driver.Labels.Laws.{insert-fresh}
use aws_ecommerce_k8s.Release.Manifest.{
  documents, number_documents, split_manifests, manifest_number, by_split_manifests_order,
}

abbrev key : ℕ → Bytes
key n = bytes "manifest-" ++ itoa (pos n)

key_inj : (i j : ℕ) → key i ≡ key j → i ≡ j
key_inj i j e = let same = itoa_inj (pos i) (pos j) (ap (drop 9) e) in cc same

str_eq-key : (i j : ℕ) → str_eq (key i) (key j) ≡ (i == j)
str_eq-key i j =
    let back : i ≡ j → key i ≡ key j = λ e. ap key e in
    ground (arith, str_eq_iff (key i) (key j), key_inj i j, back)

manifest_number-key : (n : ℕ) → n < 2 ^ 63 → manifest_number (key n) ≡ pos n
unfolding manifest_number
manifest_number-key n fits = rw (atoi-itoa (pos n) fits, manifest_number) refl

-- The entries of a list of documents, numbered from `n`.
unfoldable numbered : ℕ → List Bytes → Assoc Bytes
numbered n [] = []
numbered n (d ∷ ds) = (key n, trim_space d) ∷ numbered (suc n) ds

abbrev pub used : List Bytes → List Bytes
used ds = keep_if (λ d. not (str_eq d [])) ds

number_documents-numbered :
    (n : ℕ) (res : Assoc Bytes) (ds : List Bytes)
    → ((j : ℕ) → n ≤ j → lookup (key j) res ≡ none)
    → number_documents n res ds ≡ res ++ numbered n (used ds)
unfolding number_documents numbered keep_if
number_documents-numbered n res [] free = sym (append-nil res)
number_documents-numbered n res (d ∷ ds) free = elim (Bool-cases (str_eq d [])) [
  | inl empty ↦ rw (empty, number_documents, keep_if) (number_documents-numbered n res ds free)
  | inr full ↦
      rw (full, number_documents, keep_if)
        (number_documents-numbered (suc n) (insert (key n) (trim_space d) res) ds (λ j later.
            ground (
              arith,
              lookup-insert (key n) (key j) (trim_space d) res,
              str_eq-key n j,
              free j (omega (arith, later)),
            ))
          ∙ (rw (insert-fresh (key n) (trim_space d) res (free n (omega arith)))
              (append_assoc res ((key n, trim_space d) ∷ []) (numbered (suc n) (used ds)))))
]

-- A lookup passes over an entry with a lower number.
get-lower :
    (i n : ℕ) (v : Bytes) (m : Assoc Bytes) (ds : List Bytes)
    → i < n
    → map (λ k. Labels.get ((key i, v) ∷ m) k) (Labels.keys (numbered n ds))
      ≡ map (λ k. Labels.get m k) (Labels.keys (numbered n ds))
unfolding numbered Labels.get Labels.keys lookup
get-lower i n v m [] low = refl
get-lower i n v m (d ∷ ds) low =
    ground (arith, get-lower i (suc n) v m ds (omega (arith, low)), str_eq-key i n, low)

get-numbered :
    (n : ℕ) (ds : List Bytes)
    → map (λ k. Labels.get (numbered n ds) k) (Labels.keys (numbered n ds)) ≡ map trim_space ds
unfolding numbered Labels.get Labels.keys lookup
get-numbered n [] = refl
get-numbered n (d ∷ ds) = ground (
  arith,
  str_eq_refl (key n),
  get-lower n (suc n) (trim_space d) (numbered (suc n) ds) ds (omega arith),
  get-numbered (suc n) ds,
)

keys-later :
    (i n : ℕ) (ds : List Bytes)
    → i < n
    → n + length ds < 2 ^ 63
    → All (λ k. by_split_manifests_order k (key i) ≡ false) (Labels.keys (numbered n ds))
unfolding numbered Labels.keys by_split_manifests_order
keys-later i n [] low fits = tt
keys-later i n (d ∷ ds) low fits = (
  rw (manifest_number-key i (omega (arith, low, fits)), manifest_number-key n (omega (arith, fits)))
      (ground (arith, low)),
  keys-later i (suc n) ds (omega (arith, low)) (omega (arith, fits)),
)

keys-IsSortedBy :
    (n : ℕ) (ds : List Bytes)
    → n + length ds < 2 ^ 63
    → IsSortedBy by_split_manifests_order (Labels.keys (numbered n ds))
unfolding numbered Labels.keys
keys-IsSortedBy n [] fits = tt
keys-IsSortedBy n (d ∷ ds) fits = (
  keys-later n (suc n) ds (omega arith) (omega (arith, fits)),
  keys-IsSortedBy (suc n) ds (omega (arith, fits)),
)

-- Sorting the keys of `SplitManifests` by `BySplitManifestsOrder` and looking them up gives back the
-- documents that the separators split the stream into, without the empty ones, each without the white
-- space around it, and in their order, as long as they are fewer than 2^63.
pub split_manifests_lem :
    (big_file : Bytes)
    → length (used (documents (trim_space big_file))) < 2 ^ 63
    → let entries = split_manifests big_file in
      map (λ key. Labels.get entries key) (sort_by by_split_manifests_order (Labels.keys entries))
      ≡ map trim_space (used (documents (trim_space big_file)))
unfolding split_manifests
split_manifests_lem big_file fits =
    let ds = documents (trim_space big_file) in
    rw (number_documents-numbered 0 [] ds (λ j _. unfold lookup in refl)) (
      rw
        (sort_by-fixed by_split_manifests_order (Labels.keys (numbered 0 (used ds)))
          (keys-IsSortedBy 0 (used ds) (omega (arith, fits))))
        (get-numbered 0 (used ds)))

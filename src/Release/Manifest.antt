-- ===== src/Release/Manifest.antt =====
-- manifest.go of pkg/release/util: a stream of YAML documents as separate documents.
pub mod Order
use aws_ecommerce_k8s.Base.{
  ℕ, zero, suc, ◌+◌, ◌-◌, ◌==◌, Bool, false, ◌&&◌, ◌||◌, Option, none, some, List, [], ◌∷◌, ◌++◌,
  if◌then◌else◌, length, drop,
}
use aws_ecommerce_k8s.Base.Bytes.{Bytes, bytes, str_eq, has_prefix, onto_head}
use aws_ecommerce_k8s.Base.Int.{ℤ, pos, lt_int}
use aws_ecommerce_k8s.Base.Decimal.{itoa, atoi}
use aws_ecommerce_k8s.Base.Assoc.{Assoc, insert}
use aws_ecommerce_k8s.Base.Space.{trim_space}

-- `\s` of a regular expression, which leaves out the vertical tab.
abbrev pub is_regexp_space : ℕ → Bool
is_regexp_space c = c == 9 || c == 10 || c == 12 || c == 13 || c == 32

-- How many characters of white space the text begins with.
unfoldable pub space_run : Bytes → ℕ
space_run [] = 0
space_run (c ∷ s) = let rest = space_run s in if is_regexp_space c then suc rest else 0

-- How long the match of `\s*\n---\s*` is that begins here, if one does: the white space must end with
-- a line feed, and dashes are no white space.
unfoldable pub separator_at : Bool → Bytes → Option ℕ
unfolding has_prefix space_run
separator_at after_newline [] = none
separator_at after_newline (c ∷ s) =
    let longer = separator_at (c == 10) s in
    if is_regexp_space c
    then elim longer [ none ↦ none | some n ↦ some (suc n) ]
    else if after_newline && has_prefix (c ∷ s) (bytes "---")
    then some (3 + space_run (drop 2 s))
    else none

-- The same at the start of the text, where `---` needs no line feed in front.
unfoldable pub first_separator : Bytes → Option ℕ
unfolding separator_at space_run has_prefix
first_separator s =
    if has_prefix s (bytes "---") then some (3 + space_run (drop 3 s)) else separator_at false s

-- `sep.Split`; `skip` characters of a separator are still to pass.
unfoldable pub split_documents : ℕ → Bytes → List Bytes
unfolding separator_at
split_documents skip [] = [] ∷ []
split_documents (suc skip) (c ∷ s) = split_documents skip s
split_documents zero (c ∷ s) = elim (separator_at false (c ∷ s)) [
  | none ↦ onto_head c (split_documents 0 s)
  | some n ↦ [] ∷ split_documents (n - 1) s
]

unfoldable pub documents : Bytes → List Bytes
unfolding split_documents first_separator
documents s = elim (first_separator s) [
  | none ↦ split_documents 0 s
  | some n ↦ [] ∷ split_documents n s
]

-- The loop over the documents, with the map that it fills.
unfoldable pub number_documents : ℕ → Assoc Bytes → List Bytes → Assoc Bytes
unfolding insert trim_space itoa str_eq
number_documents count res [] = res
number_documents count res (d ∷ ds) =
    let empty = str_eq d [] in
    number_documents (if empty then count else suc count)
      (if empty then res else insert (bytes "manifest-" ++ itoa (pos count)) (trim_space d) res) ds

unfoldable pub split_manifests : Bytes → Assoc Bytes
unfolding number_documents documents
split_manifests big_file = number_documents 0 [] (documents (trim_space big_file))

-- The number in a key; 0 where there is none.
unfoldable pub manifest_number : Bytes → ℤ
unfolding atoi
manifest_number key = elim (atoi (drop (length (bytes "manifest-")) key)) [
  | none ↦ pos 0
  | some n ↦ n
]

-- `BySplitManifestsOrder.Less`
unfoldable pub by_split_manifests_order : Bytes → Bytes → Bool
unfolding manifest_number
by_split_manifests_order a b = lt_int (manifest_number a) (manifest_number b)

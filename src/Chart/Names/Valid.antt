-- ===== src/Chart/Names/Valid.antt =====
-- validate_name.go: what a name that is accepted looks like.
use aws_ecommerce_k8s.Base.{
  ℕ, ◌==◌, Bool, true, false, ◌||◌, ◌≡◌, ◌≤◌, none, [], ◌∷◌, length, arith, All, inl, inr,
  Bool-cases,
}
use aws_ecommerce_k8s.Base.Bytes.{Bytes, str_eq}
use aws_ecommerce_k8s.Base.Regexp.{nullable, derivative, match_string}
use aws_ecommerce_k8s.Base.Regexp.Alphabet.{Within, match_string-All, IsVoid-match}
use aws_ecommerce_k8s.Chart.Names.{
  is_alphanumeric, is_inner, is_dot, label_part, valid_name, validate_release_name,
  validate_metadata_name,
}

abbrev pub is_name_char : ℕ → Bool
is_name_char c = c == 45 || c == 46 || is_alphanumeric c

alphanumeric_in : (c : ℕ) → is_alphanumeric c ≡ true → is_name_char c ≡ true
alphanumeric_in c h = ground arith

inner_in : (c : ℕ) → is_inner c ≡ true → is_name_char c ≡ true
inner_in c h = ground arith

dot_in : (c : ℕ) → is_dot c ≡ true → is_name_char c ≡ true
dot_in c h = ground arith

label_part-Within : Within is_name_char label_part
label_part-Within = (alphanumeric_in, ((inner_in, alphanumeric_in), tt))

valid_name-All :
    (name : Bytes) → match_string valid_name name ≡ true → All (λ c. is_name_char c ≡ true) name
valid_name-All name h =
    match_string-All is_name_char name valid_name (label_part-Within, (dot_in, label_part-Within)) h

abbrev pub starts_alphanumeric : Bytes → Bool
starts_alphanumeric [] = false
starts_alphanumeric (c ∷ s) = is_alphanumeric c

valid_name-starts :
    (name : Bytes) → match_string valid_name name ≡ true → starts_alphanumeric name ≡ true
unfolding match_string nullable
valid_name-starts [] h = cc
valid_name-starts (c ∷ s) h = elim (Bool-cases (is_alphanumeric c)) [
  | inl starts ↦ starts
  | inr other ↦
      let nowhere =
        IsVoid-match s (derivative c valid_name)
          (unfold derivative nullable in rw other ((tt, tt), tt)) in
      let bad : true ≡ false = cc nowhere in cc
]

-- A release name that is accepted has 1 to 53 characters, each a small letter, a digit, a dash or a
-- dot, begins with a letter or a digit, and is accepted as the name of a Kubernetes object too.
pub validate_release_name_lem :
    (name : Bytes)
    → validate_release_name name ≡ none
    → (1 ≤ length name)
      × (length name ≤ 53)
      × All (λ c. is_name_char c ≡ true) name
      × (starts_alphanumeric name ≡ true)
      × (validate_metadata_name name ≡ none)
unfolding validate_release_name validate_metadata_name str_eq
validate_release_name_lem [] h = cc
validate_release_name_lem (c ∷ s) h = elim (Bool-cases (match_string valid_name (c ∷ s))) [
  | inr refused ↦ ground (arith, refused)
  | inl matched ↦
      let short : length (c ∷ s) ≤ 53 = ground (arith, matched) in
      (
        omega arith,
        short,
        valid_name-All (c ∷ s) matched,
        valid_name-starts (c ∷ s) matched,
        ground (arith, matched, short),
      )
]

-- ===== src/Driver/Records/Laws.antt =====
-- The records of one release as a finite map from keys: what each operation does to `get`.
use aws_ecommerce_k8s.Base.{
  ℕ, suc, ◌≡◌, refl, ◌∙◌, true, Option, none, some, [], ◌∷◌, ◌++◌, if◌then◌else◌, is_some, ◌&&◌,
  arith, Bool-cases, Option-cases, inl, inr,
}
use aws_ecommerce_k8s.Base.Bytes.{Bytes, str_eq, str_eq_iff}
use aws_ecommerce_k8s.Base.Sort.{insert_by, sort_by}
use aws_ecommerce_k8s.Driver.Errors.{release_exists}
use aws_ecommerce_k8s.Driver.Records.{
  Record, Records, less, index_from, index, exists, get, add, remove, replace,
}

abbrev shift : Option ℕ → Option ℕ
shift none = none
shift (some i) = some (suc i)

index_from-suc :
    (i : ℕ) (rs : Records) (key : Bytes) → index_from (suc i) rs key ≡ shift (index_from i rs key)
unfolding index_from
index_from-suc i [] key = refl
index_from-suc i (r ∷ rs) key = ground (arith, index_from-suc (suc i) rs key)

index-cons :
    (r : Record) (rs : Records) (key : Bytes)
    → index (r ∷ rs) key ≡ (if str_eq r.key key then some 0 else shift (index rs key))
unfolding index
index-cons r rs key = rw (index_from-suc 0 rs key)

-- Each operation by recursion on the records.
pub get-cons :
    (r : Record) (rs : Records) (key : Bytes)
    → get (r ∷ rs) key ≡ (if str_eq r.key key then some r else get rs key)
unfolding get
get-cons r rs key = ground (arith, index-cons r rs key)

exists-cons :
    (r : Record) (rs : Records) (key : Bytes)
    → exists (r ∷ rs) key ≡ (if str_eq r.key key then true else exists rs key)
unfolding exists
exists-cons r rs key = ground (arith, index-cons r rs key)

pub exists-get : (rs : Records) (key : Bytes) → exists rs key ≡ is_some (get rs key)
exists-get [] key = unfold exists get in refl
exists-get (r ∷ rs) key = ground (arith, exists-cons r rs key, get-cons r rs key, exists-get rs key)

pub remove-cons :
    (r : Record) (rs : Records) (key : Bytes)
    → remove (r ∷ rs) key
      ≡ (if str_eq r.key key then (some r, rs) else ((remove rs key).0, r ∷ (remove rs key).1))
unfolding remove
remove-cons r rs key = ground (arith, index-cons r rs key)

pub replace-cons :
    (r : Record) (rs : Records) (key : Bytes) (rec : Record)
    → replace (r ∷ rs) key rec ≡ (
        if str_eq r.key key
        then (some r, rec ∷ rs)
        else ((replace rs key rec).0, r ∷ (replace rs key rec).1))
unfolding replace
replace-cons r rs key rec = ground (arith, index-cons r rs key)

pub get-nil : (key : Bytes) → get [] key ≡ none
unfolding get index
get-nil key = refl

-- No two records have one key.
abbrev pub IsDistinct : Records → Type 0
IsDistinct [] = Unit
IsDistinct (r ∷ rs) = (get rs r.key ≡ none) × IsDistinct rs

pub get-remove :
    (rs : Records) (k j : Bytes)
    → IsDistinct rs
    → get (remove rs k).1 j ≡ (if str_eq k j then none else get rs j)
get-remove [] k j d = unfold remove index in rw (get-nil j) (ground arith)
get-remove (r ∷ rs) k j d = ground (
  arith,
  remove-cons r rs k,
  get-cons r rs j,
  get-cons r (remove rs k).1 j,
  get-remove rs k j d.1,
  str_eq_iff r.key k,
  str_eq_iff r.key j,
  str_eq_iff k j,
  d.0,
)

pub fst-remove : (rs : Records) (k : Bytes) → (remove rs k).0 ≡ get rs k
fst-remove [] k = unfold remove get index in refl
fst-remove (r ∷ rs) k = ground (arith, remove-cons r rs k, get-cons r rs k, fst-remove rs k)

pub get-replace :
    (rs : Records) (rec : Record) (j : Bytes)
    → get (replace rs rec.key rec).1 j
      ≡ (if str_eq rec.key j && exists rs rec.key then some rec else get rs j)
get-replace [] rec j = unfold replace index exists in rw (get-nil j) (ground arith)
get-replace (r ∷ rs) rec j = ground (
  arith,
  replace-cons r rs rec.key rec,
  get-cons r rs j,
  get-cons rec rs j,
  get-cons r (replace rs rec.key rec).1 j,
  exists-cons r rs rec.key,
  get-replace rs rec j,
  str_eq_iff r.key rec.key,
  str_eq_iff r.key j,
  str_eq_iff rec.key j,
)

get-insert_by :
    (x : Record) (rs : Records) (j : Bytes)
    → get rs x.key ≡ none
    → get (insert_by less x rs) j ≡ (if str_eq x.key j then some x else get rs j)
unfolding insert_by
get-insert_by x [] j fresh = get-cons x [] j
get-insert_by x (r ∷ rs) j fresh = elim (Bool-cases (less r x)) [
  | inl before ↦ rw before (
      ground (
        arith,
        get-cons r (insert_by less x rs) j,
        get-cons r rs j,
        get-cons r rs x.key,
        get-insert_by x rs j,
        str_eq_iff x.key j,
        str_eq_iff r.key j,
        str_eq_iff r.key x.key,
      ))
  | inr after ↦ rw after (get-cons x (r ∷ rs) j)
]

-- Sorting moves the records and changes no answer.
pub get-sort_by : (rs : Records) (j : Bytes) → IsDistinct rs → get (sort_by less rs) j ≡ get rs j
unfolding sort_by
get-sort_by [] j d = refl
get-sort_by (r ∷ rs) j d =
    get-insert_by r (sort_by less rs) j (get-sort_by rs r.key d.1 ∙ d.0)
    ∙ ground (arith, get-cons r rs j, get-sort_by rs j d.1)

get-snoc :
    (rs : Records) (r : Record) (j : Bytes)
    → get rs r.key ≡ none
    → get (rs ++ r ∷ []) j ≡ (if str_eq r.key j then some r else get rs j)
get-snoc [] r j fresh = get-cons r [] j
get-snoc (x ∷ rs) r j fresh = ground (
  arith,
  get-cons x (rs ++ r ∷ []) j,
  get-cons x rs j,
  get-cons x rs r.key,
  get-snoc rs r j,
  str_eq_iff x.key j,
  str_eq_iff r.key j,
  str_eq_iff x.key r.key,
)

IsDistinct-snoc :
    (rs : Records) (r : Record) → IsDistinct rs → get rs r.key ≡ none → IsDistinct (rs ++ r ∷ [])
IsDistinct-snoc [] r d fresh = (get-nil r.key, tt)
IsDistinct-snoc (x ∷ rs) r d fresh = (
  ground (
    arith,
    get-cons x rs r.key,
    get-snoc rs r x.key,
    d.0,
    str_eq_iff x.key r.key,
    str_eq_iff r.key x.key,
  ),
  IsDistinct-snoc rs r d.1 (ground (arith, get-cons x rs r.key)),
)

IsDistinct-insert_by :
    (x : Record) (rs : Records)
    → IsDistinct rs
    → get rs x.key ≡ none
    → IsDistinct (insert_by less x rs)
unfolding insert_by
IsDistinct-insert_by x [] d fresh = (get-nil x.key, tt)
IsDistinct-insert_by x (r ∷ rs) d fresh = elim (Bool-cases (less r x)) [
  | inl before ↦ rw before (
    ground (
      arith,
      get-insert_by x rs r.key,
      get-cons r rs x.key,
      d.0,
      str_eq_iff x.key r.key,
      str_eq_iff r.key x.key,
    ),
    IsDistinct-insert_by x rs d.1 (ground (arith, get-cons r rs x.key)),
  )
  | inr after ↦ rw after (fresh, d)
]

pub IsDistinct-sort_by : (rs : Records) → IsDistinct rs → IsDistinct (sort_by less rs)
unfolding sort_by
IsDistinct-sort_by [] d = tt
IsDistinct-sort_by (r ∷ rs) d =
    IsDistinct-insert_by r (sort_by less rs) (IsDistinct-sort_by rs d.1)
      (get-sort_by rs r.key d.1 ∙ d.0)

pub IsDistinct-remove : (rs : Records) (k : Bytes) → IsDistinct rs → IsDistinct (remove rs k).1
IsDistinct-remove [] k d = unfold remove index in tt
IsDistinct-remove (r ∷ rs) k d = elim (Bool-cases (str_eq r.key k)) [
  | inl same ↦ rw (remove-cons r rs k) (rw same d.1)
  | inr other ↦
      rw (remove-cons r rs k)
        (rw other (ground (arith, get-remove rs k r.key d.1, d.0), IsDistinct-remove rs k d.1))
]

pub IsDistinct-replace :
    (rs : Records) (rec : Record) → IsDistinct rs → IsDistinct (replace rs rec.key rec).1
IsDistinct-replace [] rec d = unfold replace index in tt
IsDistinct-replace (r ∷ rs) rec d = elim (Bool-cases (str_eq r.key rec.key)) [
  | inl same ↦
      rw (replace-cons r rs rec.key rec)
        (rw same (ground (arith, d.0, str_eq_iff r.key rec.key), d.1))
  | inr other ↦ rw (replace-cons r rs rec.key rec) (
      rw other (
        ground (
          arith,
          get-replace rs rec r.key,
          d.0,
          str_eq_iff r.key rec.key,
          str_eq_iff rec.key r.key,
        ),
        IsDistinct-replace rs rec d.1,
      ))
]

pub add_fresh :
    (rs : Records) (r : Record)
    → get rs r.key ≡ none
    → add rs r ≡ (none, sort_by less (rs ++ r ∷ []))
unfolding add
add_fresh rs r fresh = rw (exists-get rs r.key, fresh)

pub add_taken :
    (rs : Records) (r : Record)
    → is_some (get rs r.key) ≡ true
    → add rs r ≡ (some release_exists, rs)
unfolding add
add_taken rs r taken = rw (exists-get rs r.key, taken)

-- What `Add` stores is found, and no other key's record changes.
pub get-add :
    (rs : Records) (r : Record) (j : Bytes)
    → IsDistinct rs
    → get rs r.key ≡ none
    → get (add rs r).1 j ≡ (if str_eq r.key j then some r else get rs j)
get-add rs r j d fresh =
    rw (add_fresh rs r fresh)
      (get-sort_by (rs ++ r ∷ []) j (IsDistinct-snoc rs r d fresh) ∙ get-snoc rs r j fresh)

pub IsDistinct-add : (rs : Records) (r : Record) → IsDistinct rs → IsDistinct (add rs r).1
IsDistinct-add rs r d = elim (Option-cases (get rs r.key)) [
  | inl fresh ↦
      rw (add_fresh rs r fresh) (IsDistinct-sort_by (rs ++ r ∷ []) (IsDistinct-snoc rs r d fresh))
  | inr (x, taken) ↦ rw (add_taken rs r (rw taken)) d
]

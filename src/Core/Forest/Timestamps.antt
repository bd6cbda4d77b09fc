-- ===== src/Core/Forest/Timestamps.antt =====
-- `BTreeMap<usize, u64>`, which core/src/forest/random_cut_forest.rs keeps of timestamps: the pairs in the
-- order of their keys.
use anomstream.Prelude.{
  ℕ, ◌≡◌, refl, List, [], ◌∷◌, Option, none, some, ltb, ◌==◌, if◌then◌else◌, arith,
}

unfoldable pub get : ℕ → List (ℕ × ℕ) → Option ℕ
get key [] = none
get key ((k, v) ∷ rest) = let later = get key rest in if k == key then some v else later

unfoldable pub insert : ℕ → ℕ → List (ℕ × ℕ) → List (ℕ × ℕ)
insert key value [] = (key, value) ∷ []
insert key value ((k, v) ∷ rest) =
    let later = insert key value rest in
    if k == key
    then (key, value) ∷ rest
    else if ltb key k
    then (key, value) ∷ (k, v) ∷ rest
    else (k, v) ∷ later

-- A key stands in the map once, so that all its pairs are one.
unfoldable pub remove : ℕ → List (ℕ × ℕ) → List (ℕ × ℕ)
remove key [] = []
remove key ((k, v) ∷ rest) =
    let later = remove key rest in if k == key then later else (k, v) ∷ later

pub get-insert :
    (key value j : ℕ) (m : List (ℕ × ℕ))
    → get j (insert key value m) ≡ (if key == j then some value else get j m)
unfolding get insert
get-insert key value j [] = refl
get-insert key value j ((k, v) ∷ rest) = ground (arith, get-insert key value j rest)

pub get-remove :
    (key j : ℕ) (m : List (ℕ × ℕ)) → get j (remove key m) ≡ (if key == j then none else get j m)
unfolding get remove
get-remove key j [] = ground arith
get-remove key j ((k, v) ∷ rest) = ground (arith, get-remove key j rest)

-- ===== src/Node/Grouping/TradeGroups/Entries.antt =====
-- Entries with keys, as the dictionaries and `sorted` of raidex/raidex_node/offer_grouping.py treat
-- them: what their number and their amounts become.
use raidex.Prelude.{
  ℕ, suc, ◌+◌, ◌≤◌, ◌≡◌, ◌∙◌, ap, refl, Bool, true, List, [], ◌∷◌, length, map, arith, All,
  Bool-cases, inl, inr,
}
use raidex.Sorted.{TotalOrder}
use raidex.Node.Grouping.Upsert.{upsert, sort_by_key, place, measure_at}
use raidex.Node.Grouping.TradeGroups.{remove_key}

module _ {K V : Type 0} (same : K → K → Bool) where
  pub measure-remove :
      (m : V → ℕ) (j k : K) (d : List (K × V))
      → measure_at same m j (remove_key same k d) ≤ measure_at same m j d
  unfolding remove_key measure_at
  measure-remove m j k [] = omega arith
  measure-remove m j k ((i, v) ∷ d) = ground (arith, measure-remove m j k d)

  pub All-remove :
      (P : K × V → Type 0) (k : K) (d : List (K × V)) → All P d → All P (remove_key same k d)
  unfolding remove_key
  All-remove P k [] h = tt
  All-remove P k ((i, v) ∷ d) h = elim (Bool-cases (same i k)) [
    | inl e ↦ rw e h.1
    | inr e ↦ rw e (h.0, All-remove P k d h.1)
  ]

  -- Taking out the group that an item came to leaves no more groups than before.
  pub remove-upsert :
      (refl_same : (k : K) → same k k ≡ true) (k : K) (fresh : V) (add : V → V) (d : List (K × V))
      → length (remove_key same k (upsert same k fresh add d)) ≤ length d
  unfolding remove_key upsert
  remove-upsert r k fresh add [] = ground (arith, r k)
  remove-upsert r k fresh add ((i, v) ∷ d) = ground (arith, remove-upsert r k fresh add d)

  pub length-upsert :
      (k : K) (fresh : V) (add : V → V) (d : List (K × V))
      → length (upsert same k fresh add d) ≤ suc (length d)
  unfolding upsert
  length-upsert k fresh add [] = omega arith
  length-upsert k fresh add ((i, v) ∷ d) = ground (arith, length-upsert k fresh add d)

unfoldable pub total_of : {A : Type 0} → (A → ℕ) → List A → ℕ
total_of m [] = 0
total_of m (x ∷ xs) = m x + total_of m xs

module _ {K V : Type 0} (order : TotalOrder K) where
  length-place : (e : K × V) (d : List (K × V)) → length (place order e d) ≡ suc (length d)
  unfolding place
  length-place e [] = refl
  length-place e (f ∷ d) = ground (arith, length-place e d)

  pub length-sort : (d : List (K × V)) → length (sort_by_key order d) ≡ length d
  unfolding sort_by_key
  length-sort [] = refl
  length-sort (e ∷ d) = ground (arith, length-sort d, length-place e (sort_by_key order d))

  total-place :
      (m : V → ℕ) (e : K × V) (d : List (K × V))
      → total_of m (map (λ f. f.1) (place order e d)) ≡ m e.1 + total_of m (map (λ f. f.1) d)
  unfolding place total_of
  total-place m e [] = refl
  total-place m e (f ∷ d) = ground (arith, total-place m e d)

  pub total-sort :
      (m : V → ℕ) (d : List (K × V))
      → total_of m (map (λ f. f.1) (sort_by_key order d)) ≡ total_of m (map (λ f. f.1) d)
  unfolding sort_by_key total_of
  total-sort m [] = refl
  total-sort m (e ∷ d) =
      total-place m e (sort_by_key order d) ∙ ap (λ n. m e.1 + n) (total-sort m d)

pub length-map : {A B : Type 0} (f : A → B) (xs : List A) → length (map f xs) ≡ length xs
length-map f [] = refl
length-map f (x ∷ xs) = ap suc (length-map f xs)

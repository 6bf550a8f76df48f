-- ===== src/Node/Grouping/Upsert.antt =====
-- The loops of raidex/raidex_node/offer_grouping.py that collect items under a key in a dict: `get`,
-- and a new group where there is none; and `sorted` on the values.
use raidex.Prelude.{
  ℕ, ◌+◌, ◌≡◌, ◌↔◌, refl, Bool, true, false, List, [], ◌∷◌, if◌then◌else◌, arith, Bool-cases, inl,
  inr, All,
}
use raidex.Sorted.{TotalOrder, IsSorted, AllAbove-trans}

module _ {K V : Type 0} (same : K → K → Bool) where
  -- The group under a key takes an item, or a fresh one does.
  unfoldable pub upsert : K → V → (V → V) → List (K × V) → List (K × V)
  upsert k fresh add [] = (k, add fresh) ∷ []
  upsert k fresh add ((j, v) ∷ d) =
      let rest = upsert k fresh add d in if same j k then (j, add v) ∷ d else (j, v) ∷ rest

  unfoldable pub has_key : K → List (K × V) → Bool
  has_key k [] = false
  has_key k ((j, v) ∷ d) = let rest = has_key k d in if same j k then true else rest

  unfoldable pub IsDistinct : List (K × V) → Type 0
  unfolding has_key
  IsDistinct [] = Unit
  IsDistinct ((k, v) ∷ d) = (has_key k d ≡ false) × IsDistinct d

  -- What the groups under a key measure together
  unfoldable pub measure_at : (V → ℕ) → K → List (K × V) → ℕ
  measure_at m k [] = 0
  measure_at m k ((j, v) ∷ d) = (if same j k then m v else 0) + measure_at m k d

  module _ (same_iff : (j k : K) → (same j k ≡ true) ↔ (j ≡ k)) where
    has_key-upsert :
        (k j : K) (fresh : V) (add : V → V) (d : List (K × V))
        → has_key j (upsert k fresh add d) ≡ (if same k j then true else has_key j d)
    unfolding has_key upsert
    has_key-upsert k j fresh add [] = refl
    has_key-upsert k j fresh add ((i, v) ∷ d) =
        ground (arith, has_key-upsert k j fresh add d, same_iff i k, same_iff k j, same_iff i j)

    pub upsert-IsDistinct :
        (k : K) (fresh : V) (add : V → V) (d : List (K × V))
        → IsDistinct d
        → IsDistinct (upsert k fresh add d)
    unfolding IsDistinct upsert has_key
    upsert-IsDistinct k fresh add [] h = (refl, tt)
    upsert-IsDistinct k fresh add ((i, v) ∷ d) h = elim (Bool-cases (same i k)) [
      | inl e ↦ rw e h
      | inr e ↦ rw e (
        ground (arith, e, h.0, has_key-upsert k i fresh add d, same_iff k i, same_iff i k),
        upsert-IsDistinct k fresh add d h.1,
      )
    ]

    pub measure_at-upsert :
        (m : V → ℕ) (a : ℕ) (k j : K) (fresh : V) (add : V → V) (d : List (K × V))
        → m fresh ≡ 0
        → ((v : V) → m (add v) ≡ m v + a)
        → measure_at m j (upsert k fresh add d) ≡ measure_at m j d + (if same k j then a else 0)
    unfolding measure_at upsert
    measure_at-upsert m a k j fresh add [] z h = ground (arith, h fresh, z)
    measure_at-upsert m a k j fresh add ((i, v) ∷ d) z h = ground (
      arith,
      h v,
      measure_at-upsert m a k j fresh add d z h,
      same_iff i k,
      same_iff k j,
      same_iff i j,
    )

  pub All-upsert :
      (P : K × V → Type 0) (k : K) (fresh : V) (add : V → V) (d : List (K × V))
      → P (k, add fresh)
      → ((j : K) (v : V) → P (j, v) → P (j, add v))
      → All P d
      → All P (upsert k fresh add d)
  unfolding upsert
  All-upsert P k fresh add [] z h a = (z, tt)
  All-upsert P k fresh add ((i, v) ∷ d) z h a = elim (Bool-cases (same i k)) [
    | inl e ↦ rw e (h i v a.0, a.1)
    | inr e ↦ rw e (a.0, All-upsert P k fresh add d z h a.1)
  ]

-- `sorted` by a key, which is stable
module _ {K V : Type 0} (order : TotalOrder K) where
  open order use {less, same, same_iff, less_irrefl, less_trans, less_total}

  unfoldable pub place : K × V → List (K × V) → List (K × V)
  place e [] = e ∷ []
  place e (f ∷ d) = let rest = place e d in if less f.0 e.0 then f ∷ rest else e ∷ f ∷ d

  unfoldable pub sort_by_key : List (K × V) → List (K × V)
  unfolding place
  sort_by_key [] = []
  sort_by_key (e ∷ d) = place e (sort_by_key d)

  measure_at-place :
      (m : V → ℕ) (k : K) (e : K × V) (d : List (K × V))
      → measure_at same m k (place e d) ≡ measure_at same m k (e ∷ d)
  unfolding measure_at place
  measure_at-place m k e [] = refl
  measure_at-place m k e (f ∷ d) = ground (arith, measure_at-place m k e d)

  pub measure_at-sort :
      (m : V → ℕ) (k : K) (d : List (K × V))
      → measure_at same m k (sort_by_key d) ≡ measure_at same m k d
  unfolding measure_at sort_by_key
  measure_at-sort m k [] = refl
  measure_at-sort m k (e ∷ d) =
      ground (arith, measure_at-place m k e (sort_by_key d), measure_at-sort m k d)

  pub All-place :
      (P : K × V → Type 0) (e : K × V) (d : List (K × V)) → P e → All P d → All P (place e d)
  unfolding place
  All-place P e [] z h = (z, tt)
  All-place P e (f ∷ d) z h = elim (Bool-cases (less f.0 e.0)) [
    | inl l ↦ rw l (h.0, All-place P e d z h.1)
    | inr l ↦ rw l (z, h)
  ]

  pub All-sort : (P : K × V → Type 0) (d : List (K × V)) → All P d → All P (sort_by_key d)
  unfolding sort_by_key
  All-sort P [] h = tt
  All-sort P (e ∷ d) h = All-place P e (sort_by_key d) h.0 (All-sort P d h.1)

  has_key-place :
      (k : K) (e : K × V) (d : List (K × V)) → has_key same k (place e d) ≡ has_key same k (e ∷ d)
  unfolding has_key place
  has_key-place k e [] = refl
  has_key-place k e (f ∷ d) = ground (arith, has_key-place k e d)

  has_key-sort : (k : K) (d : List (K × V)) → has_key same k (sort_by_key d) ≡ has_key same k d
  unfolding has_key sort_by_key
  has_key-sort k [] = refl
  has_key-sort k (e ∷ d) = ground (arith, has_key-place k e (sort_by_key d), has_key-sort k d)

  place-IsSorted :
      (e : K × V) (d : List (K × V))
      → IsSorted order d
      → has_key same e.0 d ≡ false
      → IsSorted order (place e d)
  unfolding place has_key
  place-IsSorted e [] s n = (tt, tt)
  place-IsSorted e (f ∷ d) s n = elim (Bool-cases (less f.0 e.0)) [
    | inl l ↦
        rw l (
          All-place (λ x. less f.0 x.0 ≡ true) e d l s.0,
          place-IsSorted e d s.1 (ground (arith, n)),
        )
    | inr l ↦
        let above : less e.0 f.0 ≡ true = less_total f.0 e.0 l (ground (arith, n)) in
        rw l ((above, AllAbove-trans order e.0 f.0 d above s.0), s)
  ]

  -- Items under distinct keys are sorted strictly.
  pub sort-IsSorted : (d : List (K × V)) → IsDistinct same d → IsSorted order (sort_by_key d)
  unfolding sort_by_key IsDistinct
  sort-IsSorted [] h = tt
  sort-IsSorted (e ∷ d) h =
      place-IsSorted e (sort_by_key d) (sort-IsSorted d h.1)
        (ground (arith, has_key-sort e.0 d, h.0))

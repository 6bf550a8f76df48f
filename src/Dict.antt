-- ===== src/Dict.antt =====
-- Python's `dict` with keys that are compared for equality only (offer ids, order ids, addresses,
-- topics), as an association list in the order of insertion. A write to a key that is present
-- keeps its place, as `d[k] = v` does.
use raidex.Prelude.{
  ℕ, ◌≡◌, refl, Bool, true, false, Option, none, some, List, [], ◌∷◌, arith, ◌==◌, if◌then◌else◌,
}

abbrev pub Dict {ℓ} : Type ℓ → Type ℓ
Dict V = List (ℕ × V)

module _ {ℓ} {V : Type ℓ} where
  -- `d.get(k)`
  unfoldable pub get : Dict V → ℕ → Option V
  get [] k = none
  get ((j, v) ∷ d) k = if j == k then some v else get d k

  -- `k in d`
  unfoldable pub contains : Dict V → ℕ → Bool
  contains [] k = false
  contains ((j, v) ∷ d) k = if j == k then true else contains d k

  -- `d[k] = v`
  unfoldable pub put : Dict V → ℕ → V → Dict V
  put [] k v = (k, v) ∷ []
  put ((j, w) ∷ d) k v = if j == k then (j, v) ∷ d else (j, w) ∷ put d k v

  -- `del d[k]` where `k` is present, and `d.pop(k, None)`
  unfoldable pub remove : Dict V → ℕ → Dict V
  remove [] k = []
  remove ((j, w) ∷ d) k = let rest = remove d k in if j == k then rest else (j, w) ∷ rest

  -- `d.values()`
  unfoldable pub values : Dict V → List V
  values [] = []
  values ((j, v) ∷ d) = v ∷ values d

  pub get-put :
      (d : Dict V) (k j : ℕ) (v : V) → get (put d k v) j ≡ (if k == j then some v else get d j)
  unfolding get put
  get-put [] k j v = refl
  get-put ((i, w) ∷ d) k j v = ground (arith, get-put d k j v)

  pub get-remove : (d : Dict V) (k j : ℕ) → get (remove d k) j ≡ (if k == j then none else get d j)
  unfolding get remove
  get-remove [] k j = ground arith
  get-remove ((i, w) ∷ d) k j = ground (arith, get-remove d k j)

  abbrev pub is_some : Option V → Bool
  is_some none = false
  is_some (some v) = true

  pub contains-eq-is_some : (d : Dict V) (k : ℕ) → contains d k ≡ is_some (get d k)
  unfolding contains get
  contains-eq-is_some [] k = refl
  contains-eq-is_some ((j, v) ∷ d) k = ground (arith, contains-eq-is_some d k)

pub ruleset dict_laws = (get-put, get-remove, contains-eq-is_some)

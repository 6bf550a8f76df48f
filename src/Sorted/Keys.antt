-- ===== src/Sorted/Keys.antt =====
-- Total orders as Boolean tests, and lists of items that are sorted by their keys.
use raidex.Prelude.{
  ℕ, ◌≡◌, ◌↔◌, refl, Bool, true, false, Option, none, some, List, [], ◌∷◌, All, arith, ltb, ◌==◌,
  ==_iff, ◌&&◌, if◌then◌else◌, Bool-cases, inl, inr, subst, All-both,
}

-- `<` and `==` of a type of keys.
pub record TotalOrder (K : Type 0) : Type 0 where
  pub less : K → K → Bool
  pub same : K → K → Bool
  pub same_iff : (a b : K) → (same a b ≡ true) ↔ (a ≡ b)
  pub less_irrefl : (a : K) → less a a ≡ false
  pub less_trans : (a b c : K) → less a b ≡ true → less b c ≡ true → less a c ≡ true
  pub less_total : (a b : K) → less a b ≡ false → same a b ≡ false → less b a ≡ true

pub nat-less_trans : (a b c : ℕ) → ltb a b ≡ true → ltb b c ≡ true → ltb a c ≡ true
nat-less_trans a b c p q = ground arith

pub nat-less_irrefl : (a : ℕ) → ltb a a ≡ false
nat-less_irrefl a = ground arith

pub nat-less_total : (a b : ℕ) → ltb a b ≡ false → (a == b) ≡ false → ltb b a ≡ true
nat-less_total a b p q = ground arith

abbrev pub nat_order : TotalOrder ℕ
nat_order = record {
  less = ltb;
  same = ◌==◌;
  same_iff = ==_iff;
  less_irrefl = nat-less_irrefl;
  less_trans = nat-less_trans;
  less_total = nat-less_total;
}

-- Python compares tuples by their first unequal places.
module _ {A B : Type 0} (p : TotalOrder A) (q : TotalOrder B) where
  abbrev pub lex_less : A × B → A × B → Bool
  lex_less (a, b) (c, d) = if p.same a c then q.less b d else p.less a c

  abbrev pub lex_same : A × B → A × B → Bool
  lex_same (a, b) (c, d) = p.same a c && q.same b d

  pub lex-same_iff : (x y : A × B) → (lex_same x y ≡ true) ↔ (x ≡ y)
  lex-same_iff (a, b) (c, d) = ground (arith, p.same_iff a c, q.same_iff b d)

  pub lex-less_irrefl : (x : A × B) → lex_less x x ≡ false
  lex-less_irrefl (a, b) = ground (arith, p.same_iff a a, q.less_irrefl b)

  pub lex-less_trans :
      (x y z : A × B) → lex_less x y ≡ true → lex_less y z ≡ true → lex_less x z ≡ true
  lex-less_trans (a, b) (c, d) (e, f) h k = ground (
    arith,
    p.same_iff a c,
    p.same_iff c e,
    p.same_iff a e,
    q.less_trans b d f,
    p.less_trans a c e,
    p.less_irrefl a,
    p.less_trans c a c,
    p.less_irrefl c,
  )

  pub lex-less_total :
      (x y : A × B) → lex_less x y ≡ false → lex_same x y ≡ false → lex_less y x ≡ true
  lex-less_total (a, b) (c, d) h k =
      ground
        (arith, p.same_iff a c, p.same_iff c a, p.less_total a c, q.less_total b d, q.same_iff b d)

  abbrev pub lex_order : TotalOrder (A × B)
  lex_order = record {
    less = lex_less;
    same = lex_same;
    same_iff = lex-same_iff;
    less_irrefl = lex-less_irrefl;
    less_trans = lex-less_trans;
    less_total = lex-less_total;
  }

abbrev pub Entries : Type 0 → Type 0 → Type 0
Entries K V = List (K × V)

module _ {K V : Type 0} (order : TotalOrder K) where
  open order use {less, same, same_iff, less_irrefl, less_trans, less_total}

  unfoldable pub insert : K → V → Entries K V → Entries K V
  insert k v [] = (k, v) ∷ []
  insert k v ((j, w) ∷ d) =
      if less k j
      then (k, v) ∷ (j, w) ∷ d
      else if same k j
      then (j, v) ∷ d
      else (j, w) ∷ insert k v d

  unfoldable pub erase : K → Entries K V → Entries K V
  erase k [] = []
  erase k ((j, w) ∷ d) = if same k j then d else (j, w) ∷ erase k d

  unfoldable pub find : K → Entries K V → Option V
  find k [] = none
  find k ((j, w) ∷ d) = if same k j then some w else find k d

  abbrev pub AllAbove : K → Entries K V → Type 0
  AllAbove k = All (λ e. less k e.0 ≡ true)

  abbrev pub IsSorted : Entries K V → Type 0
  IsSorted [] = Unit
  IsSorted ((k, v) ∷ d) = AllAbove k d × IsSorted d

  pub AllAbove-trans : (j k : K) (d : Entries K V) → less j k ≡ true → AllAbove k d → AllAbove j d
  AllAbove-trans j k [] h a = tt
  AllAbove-trans j k ((i, w) ∷ d) h a = (less_trans j k i h a.0, AllAbove-trans j k d h a.1)

  AllAbove-insert :
      (j k : K) (v : V) (d : Entries K V)
      → less j k ≡ true
      → AllAbove j d
      → AllAbove j (insert k v d)
  unfolding insert
  AllAbove-insert j k v [] h a = (h, tt)
  AllAbove-insert j k v ((i, w) ∷ d) h a = ground (arith, AllAbove-insert j k v d h a.1)

  pub insert-IsSorted : (k : K) (v : V) (d : Entries K V) → IsSorted d → IsSorted (insert k v d)
  unfolding insert
  insert-IsSorted k v [] s = (tt, tt)
  insert-IsSorted k v ((j, w) ∷ d) s = elim (Bool-cases (less k j)) [
    | inl l ↦ rw l ((l, AllAbove-trans k j d l s.0), s)
    | inr n ↦ rw n (elim (Bool-cases (same k j)) [
      | inl e ↦ rw e s
      | inr e ↦ rw e (AllAbove-insert j k v d (less_total k j n e) s.0, insert-IsSorted k v d s.1)
    ])
  ]

  AllAbove-erase : (j k : K) (d : Entries K V) → AllAbove j d → AllAbove j (erase k d)
  unfolding erase
  AllAbove-erase j k [] a = tt
  AllAbove-erase j k ((i, w) ∷ d) a = ground (arith, AllAbove-erase j k d a.1)

  pub erase-IsSorted : (k : K) (d : Entries K V) → IsSorted d → IsSorted (erase k d)
  unfolding erase
  erase-IsSorted k [] s = tt
  erase-IsSorted k ((j, w) ∷ d) s = ground (arith, erase-IsSorted k d s.1, AllAbove-erase j k d s.0)

  pub find-insert :
      (k j : K) (v : V) (d : Entries K V)
      → find j (insert k v d) ≡ (if same j k then some v else find j d)
  unfolding find insert
  find-insert k j v [] = refl
  find-insert k j v ((i, w) ∷ d) =
      ground (arith, find-insert k j v d, same_iff k i, same_iff j i, same_iff j k, less_irrefl k)

  find_above : (k : K) (d : Entries K V) → AllAbove k d → find k d ≡ none
  unfolding find
  find_above k [] a = refl
  find_above k ((j, w) ∷ d) a = ground (arith, find_above k d a.1, same_iff k j, less_irrefl k)

  pub find-erase :
      (k j : K) (d : Entries K V)
      → IsSorted d
      → find j (erase k d) ≡ (if same j k then none else find j d)
  unfolding find erase
  find-erase k j [] s = ground arith
  find-erase k j ((i, w) ∷ d) s =
      ground
        (arith, find-erase k j d s.1, same_iff k i, same_iff j i, same_iff j k, find_above i d s.0)

  -- What holds of every item that is found holds of every item.
  pub All-of_find {κ} :
      (P : K × V → Type κ) (d : Entries K V)
      → IsSorted d
      → ((k : K) (v : V) → find k d ≡ some v → P (k, v))
      → All P d
  unfolding find
  All-of_find P [] s h = tt
  All-of_find P ((j, w) ∷ d) s h = (
    h j w (rw ((same_iff j j).1 refl) refl),
    All-of_find P d s.1 λ k v q. h k v (ground (arith, same_iff k j, find_above j d s.0, q)),
  )

  -- A write puts nothing into the items but itself.
  pub All-insert {κ} :
      (P : K × V → Type κ) (k : K) (v : V) (d : Entries K V)
      → P (k, v)
      → All P d
      → All P (insert k v d)
  unfolding insert
  All-insert P k v [] h a = (h, tt)
  All-insert P k v ((j, w) ∷ d) h a = elim (Bool-cases (less k j)) [
    | inl l ↦ rw l (h, a)
    | inr n ↦ rw n (elim (Bool-cases (same k j)) [
      | inl e ↦ rw e (subst (λ i. P (i, v)) ((same_iff k j).0 e) h, a.1)
      | inr e ↦ rw e (a.0, All-insert P k v d h a.1)
    ])
  ]

  -- Every item of a sorted list is the one that is found under its key.
  pub found_all : (d : Entries K V) → IsSorted d → All (λ e. find e.0 d ≡ some e.1) d
  unfolding find
  found_all [] s = tt
  found_all ((j, w) ∷ d) s = (
    rw ((same_iff j j).1 refl) refl,
    All-both (λ e. less j e.0 ≡ true) (λ e. find e.0 d ≡ some e.1)
        (λ e. (if same e.0 j then some w else find e.0 d) ≡ some e.1) d
        (λ e l h. ground (arith, l, h, same_iff e.0 j, less_irrefl j)) s.0 (found_all d s.1),
  )

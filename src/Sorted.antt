-- ===== src/Sorted.antt =====
-- Orders on keys, and what the program uses of `SortedDict` (package sortedcontainers), whose code
-- is not part of the repository.
mod Keys
pub use Keys.{
  TotalOrder, nat_order, lex_order, Entries, AllAbove, IsSorted, insert-IsSorted, erase-IsSorted,
  find-insert, find-erase, All-of_find, All-insert, found_all, AllAbove-trans,
}
unfoldable pub use Keys.{insert, erase, find}
use raidex.Prelude.{◌≡◌, Bool, true, false, Option, none, some, List, [], ◌∷◌, if◌then◌else◌, refl}

-- A `SortedDict`: its items, in the order of their keys, after `d[k] = v` and after `del d[k]` of a
-- key that is there. `del` of another key raises KeyError: the program tests `find` for that.
pub record SortedDict (K V : Type 0) (order : TotalOrder K) : Type 1 where
  pub Dict : Type 0
  pub empty : Dict
  pub set : Dict → K → V → Dict
  pub delete : Dict → K → Dict
  pub items : Dict → Entries K V
  pub items-empty : items empty ≡ []
  pub items-set : (d : Dict) (k : K) (v : V) → items (set d k v) ≡ insert order k v (items d)
  pub items-delete : (d : Dict) (k : K) → items (delete d k) ≡ erase order k (items d)

-- Sorted lists of items are such dictionaries: the assumptions can be met.
abbrev pub sorted_items : (K V : Type 0) (order : TotalOrder K) → SortedDict K V order
sorted_items K V order = record {
  Dict = Entries K V;
  empty = [];
  set = λ d k v. insert order k v d;
  delete = λ d k. erase order k d;
  items = λ d. d;
  items-empty = refl;
  items-set = λ d k v. refl;
  items-delete = λ d k. refl;
}

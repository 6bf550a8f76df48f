-- ===== src/Node/Grouping/Times.antt =====
-- The bins of time of raidex/raidex_node/offer_grouping.py: `find_time_bin` and `time_bin_gen`. Times
-- are milliseconds since 1970, and the decimals of the source are whole numbers here: a quotient of
-- two of them is rounded down, by the rounding that the module sets. Decimals are exact up to 28
-- digits, far above any time in milliseconds.
use native.Mathlib.Nat.{div-add-mod', mod-lt, mul-mod_left, add-mul-mod_self_left}
use raidex.Prelude.{
  ℕ, zero, suc, ◌+◌, ◌-◌, ◌*◌, ◌/◌, ◌%◌, ◌≤◌, ◌<◌, ◌≡◌, ◌≢◌, ◌∙◌, Option, none, some, List, [], ◌∷◌,
  arith,
}

-- `TIME_GROUP_INTERVAL_MS`
abbrev pub time_group_interval_ms : ℕ
time_group_interval_ms = 10000

abbrev pub or_else : ℕ → Option ℕ → ℕ
or_else d none = d
or_else d (some n) = n

-- The start of the bin that a time is in
unfoldable pub bin_start : ℕ → ℕ → ℕ
bin_start interval time = time / interval * interval

-- `find_time_bin` with an offset that is not negative: the start and the stop
unfoldable pub find_time_bin : ℕ → Option ℕ → Option ℕ → ℕ × ℕ
unfolding bin_start
find_time_bin time offset interval =
    let size = or_else time_group_interval_ms interval in
    let start = bin_start size time + size * or_else 0 offset in
    (start, start + size * (or_else 0 offset + 1))

-- The loop of `time_bin_gen` from a start
unfoldable pub bins_from : ℕ → ℕ → ℕ → List ℕ
bins_from size start zero = []
bins_from size start (suc n) = (start + size) ∷ bins_from size (start + size) n

-- `time_bin_gen`. The start stops at 0, where the source goes on below it: for bins before 1970.
unfoldable pub time_bin_gen : ℕ → ℕ → Option ℕ → List ℕ
unfolding bin_start bins_from
time_bin_gen current_timestamp nof_bins interval =
    let size = or_else time_group_interval_ms interval in
    bins_from size (bin_start size current_timestamp - size * nof_bins) nof_bins

-- A bin of a length, and a time in it
pub record IsBin (time size : ℕ) (bin : ℕ × ℕ) : Type 0 where
  pub from_start : bin.0 ≤ time
  pub before_stop : time < bin.1
  pub size_long : bin.1 ≡ bin.0 + size
  pub aligned : bin.0 % size ≡ 0

-- Without an offset and for a positive interval, the time lies in its bin, which is as long as the
-- interval and starts at a multiple of it.
pub find_time_bin-IsBin :
    (time size : ℕ) → 0 < size → IsBin time size (find_time_bin time none (some size))
unfolding find_time_bin bin_start
find_time_bin-IsBin time size h =
    let parts = div-add-mod' time size in
    record {
      from_start = omega (arith, parts);
      before_stop = omega (arith, parts, mod-lt time h);
      size_long = omega arith;
      aligned = add-mul-mod_self_left (time / size * size) size 0 ∙ mul-mod_left (time / size) size;
    }

-- With a positive offset and interval, the stop of a bin is not the start of the next one.
pub find_time_bin_overlaps :
    (time k size : ℕ)
    → 0 < size
    → (find_time_bin time (some (suc k)) (some size)).1
      ≢ (find_time_bin time (some (suc (suc k))) (some size)).0
unfolding find_time_bin bin_start
find_time_bin_overlaps time k size h = omega arith

-- ===== src/Node/Timeouts.antt =====
-- `TimeoutHandler` of raidex/utils/greenlet_helper.py: a greenlet per offer id that reports the
-- timeout of the offer when its time has come. A greenlet that has run is dead.
use raidex.Prelude.{ℕ, ◌≡◌, Bool, true, false, not, Option, none, some, ◌&&◌, ◌==◌, if◌then◌else◌}
use raidex.Dict.{Dict, get, put, remove, contains}
use raidex.Exec.{Exec, Result, ok, raised, already_timed_out, modify, ◌>>=◌}

-- What `spawn_later(seconds_to_timeout(timeout) - threshold, ...)` is called with, and `dead`
pub record Greenlet : Type 0 where
  pub timeout_date : ℕ
  pub threshold : ℕ
  pub dead : Bool

abbrev pub Timeouts : Type 0
Timeouts = Dict Greenlet

unfoldable pub has_greenlet : ℕ → Timeouts → Bool
has_greenlet offer_id d = contains d offer_id

abbrev alive : Option Greenlet → Bool
alive none = false
alive (some g) = not g.dead

unfoldable pub is_still_alive : ℕ → Timeouts → Bool
is_still_alive offer_id d = alive (get d offer_id)

-- The greenlet is killed and leaves the dictionary.
unfoldable pub clean_up_timeout : ℕ → Exec Timeouts (Unit {0})
clean_up_timeout offer_id = modify (λ d. if contains d offer_id then remove d offer_id else d)

-- `future_timeout`
unfoldable pub future_timeout : (timeout threshold : ℕ) → Greenlet
future_timeout timeout threshold = record {
  timeout_date = timeout;
  threshold = threshold;
  dead = false;
}

unfoldable pub create_new_timeout : (offer_id timeout_date threshold : ℕ) → Exec Timeouts Bool
unfolding has_greenlet is_still_alive clean_up_timeout future_timeout
create_new_timeout offer_id timeout_date threshold d =
    if has_greenlet offer_id d && not (is_still_alive offer_id d)
    then (raised already_timed_out, d)
    else (clean_up_timeout offer_id >>= λ _ d'.
          (ok true, put d' offer_id (future_timeout timeout_date threshold)))
        d

-- The greenlet of an id runs: it is dead from then on.
unfoldable pub fire_timeout : ℕ → Timeouts → Timeouts
fire_timeout offer_id d = elim (get d offer_id) [
  | none ↦ d
  | some g ↦ put d offer_id (record g { dead = true })
]

-- What a lookup of `j` gives after a greenlet has been made for `i`
abbrev renewed : ℕ → ℕ → ℕ → ℕ → Timeouts → Option Greenlet
renewed i t th j d =
    if i == j then some (record { timeout_date = t; threshold = th; dead = false }) else get d j

-- An outcome of `create_new_timeout`, by the greenlet that stood under the id
unfoldable pub CreatesFrom :
    Option Greenlet → ℕ → ℕ → ℕ → ℕ → Timeouts → Result Bool × Timeouts → Type 0
CreatesFrom none i t th j d r = (r.0 ≡ ok true) × (get r.1 j ≡ renewed i t th j d)
CreatesFrom (some g) i t th j d r =
    if g.dead
    then (r ≡ (raised already_timed_out, d))
    else ((r.0 ≡ ok true) × (get r.1 j ≡ renewed i t th j d))

-- ===== src/Core/SpaceSaving.antt =====
-- The heavy-hitter table of core/src/space_saving.rs. Keys are of any type with a test for equality.
-- The `HashMap` is an association list without a repeated key; the order in which it is iterated is
-- a parameter.
pub mod Table
pub mod Least
pub mod Bounds
pub mod Streams
mod Tests
use anomstream.Prelude.{
  ℕ, ◌+◌, ◌/◌, ◌≡◌, Bool, List, [], ◌∷◌, Option, none, some, length, ltb, ◌==◌, if◌then◌else◌,
}
use anomstream.Core.Error.{RcfResult, ok, err, invalid_config}
use anomstream.Word.{saturating_add64}
use anomstream.Core.SpaceSaving.Table
use anomstream.Core.SpaceSaving.Table.{HeavyHitterEntry}

pub record SpaceSaving (K : Type 0) : Type 0 where
  pub counts : List (K × HeavyHitterEntry)
  pub capacity : ℕ
  pub total : ℕ

module _ {K : Type 0} where
  unfoldable pub new : ℕ → RcfResult (SpaceSaving K)
  new capacity =
      if capacity == 0
      then err invalid_config
      else ok (record { counts = []; capacity = capacity; total = 0 })

  pub error_bound : SpaceSaving K → ℕ
  error_bound s = if s.capacity == 0 then 0 else s.total / s.capacity

  pub reset : SpaceSaving K → SpaceSaving K
  reset s = record s { counts = []; total = 0 }

  -- `min_by_key` keeps the first of the entries that it finds least.
  abbrev pub least : K × HeavyHitterEntry → List (K × HeavyHitterEntry) → K × HeavyHitterEntry
  least x [] = x
  least x (y ∷ t) = least (if ltb y.1.estimate x.1.estimate then y else x) t

  abbrev pub find_min : List (K × HeavyHitterEntry) → Option (K × HeavyHitterEntry)
  find_min [] = none
  find_min (x ∷ t) = some (least x t)

module _ {K : Type 0} (eq : K → K → Bool) where
  unfoldable pub estimate : SpaceSaving K → K → Option HeavyHitterEntry
  estimate s key = Table.find eq key s.counts

module _ {K : Type 0} (eq : K → K → Bool)
    (order : List (K × HeavyHitterEntry) → List (K × HeavyHitterEntry)) where
  -- The end of `observe_weighted`, on the least entry.
  abbrev pub evict :
      K
      → ℕ
      → Option (K × HeavyHitterEntry)
      → List (K × HeavyHitterEntry)
      → List (K × HeavyHitterEntry)
  evict key weight none t = t
  evict key weight (some (min_key, min_entry)) t =
      (
        key,
        record {
          estimate = saturating_add64 min_entry.estimate weight;
          error = min_entry.estimate;
        },
      )
      ∷ Table.remove eq min_key t

  -- The table after `observe_weighted`, where the key was found or not.
  abbrev pub counted : K → ℕ → SpaceSaving K → Option HeavyHitterEntry → List (K × HeavyHitterEntry)
  counted key weight s (some entry) =
      Table.put eq key (record entry { estimate = saturating_add64 entry.estimate weight }) s.counts
  counted key weight s none =
      if ltb (length s.counts) s.capacity
      then (key, record { estimate = weight; error = 0 }) ∷ s.counts
      else evict key weight (find_min (order s.counts)) s.counts

  pub observe_weighted : K → ℕ → SpaceSaving K → SpaceSaving K
  observe_weighted key weight s = if weight == 0 then s else record s {
    counts = counted key weight s (Table.find eq key s.counts);
    total = saturating_add64 s.total weight;
  }

  pub observe : K → SpaceSaving K → SpaceSaving K
  unfolding observe_weighted
  observe key s = observe_weighted key 1 s

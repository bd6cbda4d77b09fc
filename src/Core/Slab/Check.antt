-- ===== src/Core/Slab/Check.antt =====
-- The check of a restored free stack: `check_free_list` of core/src/tree/node_store.rs.
pub mod Exact
mod Tests
use anomstream.Prelude.{
  ℕ, Bool, true, false, List, [], ◌∷◌, Option, none, some, length, get_elem?, get_or, set,
  replicate, ◌==◌, if◌then◌else◌,
}
use anomstream.Core.Error.{RcfResult, ok, err, deserialization_failed, ◌>>=◌, ◌>>◌}
use anomstream.Core.Slab.{empties}

-- `check_free_list`, the loop over the free stack; `listed` has a mark for each slot seen. Every
-- refusal is the same value, so the order in which the stack is read does not show.
unfoldable pub check_listed {ℓ} :
    {A : Type ℓ} → List (Option A) → List ℕ → List Bool → RcfResult (Unit {0})
check_listed slots [] listed = ok tt
check_listed slots (i ∷ free) listed =
    let rest = check_listed slots free (set listed i true) in
    elim (get_elem? slots i) [
      | some none ↦ if get_or listed i false then err deserialization_failed else rest
      | some (some a) ↦ err deserialization_failed
      | none ↦ err deserialization_failed
    ]

unfoldable pub check_free_list {ℓ} : {A : Type ℓ} → List (Option A) → List ℕ → RcfResult (Unit {0})
check_free_list slots free =
    check_listed slots free (replicate (length slots) false)
    >> (if empties slots == length free then ok tt else err deserialization_failed)

-- ===== src/Server/Budget/Tests.antt =====
-- Runs of the tool budget and its theorems at concrete inputs.
use homelab_evidence_mcp.Prelude.{◌+◌, ◌≤◌, ◌≡◌, refl, List, [], ◌∷◌, some, arith}
use homelab_evidence_mcp.Server.Budget.{
  ToolBudget, new_tool_budget, roll, acquire, release, Step, acquire_at, release_one, granted,
  IsWithin, granted-le, too_many_concurrent,
}

program : Unit {0}
unfolding new_tool_budget roll acquire release granted
program = tt

abbrev budget : ToolBudget
budget = record { per_min = 3; window = 5; count = 1; in_use = 0; capacity = 2 }

abbrev steps : List Step
steps = acquire_at 6 ∷ acquire_at 7 ∷ acquire_at 8 ∷ release_one ∷ acquire_at 9 ∷ []

two_granted : (granted steps budget).0 ≡ 2
unfolding program
two_granted = refl

crowded :
    (acquire 8 (granted (acquire_at 6 ∷ acquire_at 7 ∷ []) budget).1).0 ≡ some too_many_concurrent
unfolding program
crowded = refl

budget-IsWithin : IsWithin budget
budget-IsWithin = record { slots = omega arith; calls = omega arith }

granted-le_example : 1 + (granted steps budget).0 ≤ 3
granted-le_example =
    granted-le steps budget budget-IsWithin
      (omega arith, (omega arith, (omega arith, (tt, (omega arith, tt)))))

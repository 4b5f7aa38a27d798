-- ===== src/Server/Budget.antt =====
-- The tool budget of internal/mcpserver/app.go. A slot of the channel is a number; the clock is an
-- argument.
mod Tests
use homelab_evidence_mcp.Prelude.{
  ℕ, zero, suc, ◌+◌, ◌-◌, ◌≤◌, ◌<◌, ◌≡◌, refl, ◌∙◌, ap, sym, subst, Bool, true, false, not, ◌||◌,
  ◌&&◌, List, [], ◌∷◌, Option, none, some, ltb, leb, if◌then◌else◌, arith, All, Bool-cases, inl,
  inr,
}
use homelab_evidence_mcp.Prelude.Int.{ℤ, pos, pos_part, leb_ℤ}
use homelab_evidence_mcp.Evidence.{Time}

pub record ToolBudget : Type 0 where
  pub per_min : ℕ
  pub window : Time
  pub count : ℕ
  pub in_use : ℕ
  pub capacity : ℕ

pub data BudgetError : Type 0 where
  too_many_concurrent rate_exceeded : BudgetError

unfoldable pub new_tool_budget : ℤ → ℤ → Time → ToolBudget
new_tool_budget per_min concurrent now = record {
  per_min = if leb_ℤ per_min (pos 0) then 120 else pos_part per_min;
  window = now;
  count = 0;
  in_use = 0;
  capacity = if leb_ℤ concurrent (pos 0) then 8 else pos_part concurrent;
}

abbrev pub minute : ℕ
minute = 60000000000

-- The new window, when a minute has passed.
unfoldable pub roll : Time → ToolBudget → ToolBudget
roll now b = if leb (b.window + minute) now then record b { window = now; count = 0 } else b

-- `acquire`; no error is the granted call.
unfoldable pub acquire : Time → ToolBudget → Option BudgetError × ToolBudget
acquire now b =
    let b1 = roll now (record b { in_use = b.in_use + 1 }) in
    if leb b.capacity b.in_use
    then (some too_many_concurrent, b)
    else if leb b1.per_min b1.count
    then (some rate_exceeded, record b1 { in_use = b1.in_use - 1 })
    else (none, record b1 { count = b1.count + 1 })

unfoldable pub release : ToolBudget → ToolBudget
release b = record b { in_use = b.in_use - 1 }

-- What happens to a budget.
pub data Step : Type 0 where
  acquire_at : Time → Step
  release_one : Step

-- The number of calls that are granted, and the budget at the end.
unfoldable pub granted : List Step → ToolBudget → ℕ × ToolBudget
granted [] b = (0, b)
granted (release_one ∷ steps) b = granted steps (release b)
granted (acquire_at now ∷ steps) b =
    let (error, b') = acquire now b in
    let (n, last) = granted steps b' in (elim error [ none ↦ suc n | some _ ↦ n ], last)

pub record IsWithin (b : ToolBudget) : Type 0 where
  pub slots : b.in_use ≤ b.capacity
  pub calls : b.count ≤ b.per_min

acquire-IsWithin : (now : Time) (b : ToolBudget) → IsWithin b → IsWithin (acquire now b).1
unfolding acquire roll
acquire-IsWithin now b v = record {
  slots = ground (arith, v.slots);
  calls = ground (arith, v.calls);
}

-- From a budget within its limits, whatever calls come and go, never more of them run at once
-- than the capacity, and never more have been granted in the current window than the limit per
-- minute.
pub granted-IsWithin :
    (steps : List Step) (b : ToolBudget) → IsWithin b → IsWithin (granted steps b).1
unfolding granted release
granted-IsWithin [] b v = v
granted-IsWithin (release_one ∷ steps) b v =
    granted-IsWithin steps (release b) (record { slots = omega (arith, v.slots); calls = v.calls })
granted-IsWithin (acquire_at now ∷ steps) b v =
    granted-IsWithin steps (acquire now b).1 (acquire-IsWithin now b v)

-- A step that happens before the minute of the window is over.
abbrev pub IsEarly : Time → Step → Type 0
IsEarly start (acquire_at now) = now < start + minute
IsEarly start release_one = Unit

acquire-early :
    (now : Time) (b : ToolBudget)
    → now < b.window + minute
    → ((acquire now b).1.window ≡ b.window)
      × ((acquire now b).1.per_min ≡ b.per_min)
      × ((acquire now b).1.count
          ≡ (elim (acquire now b).0 [ none ↦ suc b.count | some _ ↦ b.count ]))
unfolding acquire roll
acquire-early now b h = (ground arith, ground arith, ground arith)

-- From a budget within its limits, and with every call before the end of the minute of the
-- current window, the calls that are granted and those counted before are together no more than
-- the limit per minute, in whatever order calls begin and end.
pub granted-le :
    (steps : List Step) (b : ToolBudget)
    → IsWithin b
    → All (IsEarly b.window) steps
    → b.count + (granted steps b).0 ≤ b.per_min
unfolding granted release
granted-le [] b v early = omega (arith, v.calls)
granted-le (release_one ∷ steps) b v early =
    granted-le steps (release b) (record { slots = omega (arith, v.slots); calls = v.calls })
      early.1
granted-le (acquire_at now ∷ steps) b v early =
    let (window, limit, counted) = acquire-early now b early.0 in
    let b' = (acquire now b).1 in
    let ih =
      granted-le steps b' (acquire-IsWithin now b v)
        (subst (λ w. All (IsEarly w) steps) (sym window) early.1) in
    ground (arith, ih, limit, counted)

-- ===== src/Config/Errors.antt =====
-- Lists of validation errors of internal/config/config.go, as the checks append them.
use homelab_evidence_mcp.Prelude.{
  ◌≡◌, refl, Bool, true, false, List, [], ◌∷◌, ◌++◌, Text, if◌then◌else◌, ◌⊎◌, inl, inr, All, arith,
}
use homelab_evidence_mcp.Config.Types.{ValidationError}

abbrev pub Errors : Type 0
Errors = List ValidationError

abbrev pub one : Text → Text → Errors
one path message = record { path = path; message = message } ∷ []

-- An error if a check fails.
abbrev pub error_if : Bool → Text → Text → Errors
error_if b path message = if b then one path message else []

abbrev pub no_errors : Errors → Bool
no_errors [] = true
no_errors (e ∷ es) = false

pub no_errors-none : (es : Errors) → no_errors es ≡ true → es ≡ []
no_errors-none [] h = refl
no_errors-none (e ∷ es) h = ground arith

-- The errors of several checks, in their order.
unfoldable pub all_errors : List Errors → Errors
all_errors [] = []
all_errors (e ∷ es) = e ++ all_errors es

abbrev IsNone : Errors → Type 0
IsNone e = e ≡ []

pub append-none : (d e : Errors) → d ++ e ≡ [] → (d ≡ []) × (e ≡ [])
append-none [] e h = (refl, h)
append-none (x ∷ d) e h = ground arith

-- No error of a list of checks is no error of each.
pub all_errors-none : (es : List Errors) → all_errors es ≡ [] → All (λ e. e ≡ []) es
unfolding all_errors
all_errors-none [] h = tt
all_errors-none (e ∷ es) h =
    let parts : (e ≡ []) × (all_errors es ≡ []) = append-none e (all_errors es) h in
    (parts.0, all_errors-none es parts.1)

-- A check that gives no error has held.
pub error_if-none : (b : Bool) (path message : Text) → error_if b path message ≡ [] → b ≡ false
error_if-none b path message h = ground arith

-- What a parser returns: its errors if it has any, or what it made.
unfoldable pub checked {ℓ} : {A : Type ℓ} → Errors → A → Errors ⊎ A
checked [] a = inr a
checked (e ∷ es) a = inl (e ∷ es)

pub checked-inr {ℓ} :
    {A : Type ℓ} (es : Errors) (a b : A) → checked es a ≡ inr b → (es ≡ []) × (a ≡ b)
unfolding checked
checked-inr [] a b h = ground arith
checked-inr (e ∷ es) a b h = ground arith

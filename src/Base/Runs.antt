-- ===== src/Base/Runs.antt =====
-- Runs of a system whose steps are a function of the state and of what happens.
use Prim.Native.Nat.{ℕ, ◌+◌, ◌≤◌}
use mathlib.Core.Path.{◌≡◌, refl, sym, ap, subst, ◌∙◌}
use mathlib.Core.Bool.{Bool, true}
use mathlib.Core.List.{List, [], ◌∷◌, ◌++◌}
use native.Mathlib.Omega.{arith}

-- The state behind a sequence of events.
abbrev pub run : {S E : Type 0} → (S → E → S) → S → List E → S
run step s [] = s
run step s (e ∷ es) = run step (step s e) es

pub run-Kept :
    {S E : Type 0} (step : S → E → S) (Kept : S → Type 0)
    → ((s : S) (e : E) → Kept s → Kept (step s e))
    → (s : S) (es : List E) → Kept s
    → Kept (run step s es)
run-Kept step Kept keeps s [] kept = kept
run-Kept step Kept keeps s (e ∷ es) kept = run-Kept step Kept keeps (step s e) es (keeps s e kept)

-- Each event can happen where it does.
abbrev pub CanRun : {S E : Type 0} → (S → E → S) → (E → S → Bool) → S → List E → Type 0
CanRun step enabled s [] = Unit {0}
CanRun step enabled s (e ∷ es) = (enabled e s ≡ true) × CanRun step enabled (step s e) es

-- What a sequence of events costs.
abbrev pub total : {E : Type 0} → (E → ℕ) → List E → ℕ
total cost [] = 0
total cost (e ∷ es) = cost e + total cost es

-- A measure that pays for each event bounds what a run costs.
pub total-le :
    {S E : Type 0} (step : S → E → S) (enabled : E → S → Bool) (cost : E → ℕ) (left : S → ℕ)
    (Kept : S → Type 0)
    → ((s : S) (e : E)
        → Kept s
        → enabled e s ≡ true
        → (cost e + left (step s e) ≤ left s) × Kept (step s e))
    → (s : S) (es : List E) → Kept s
    → CanRun step enabled s es
    → total cost es ≤ left s
total-le step enabled cost left Kept pays s [] kept can = omega arith
total-le step enabled cost left Kept pays s (e ∷ es) kept (ready, can) =
    let (paid, still) = pays s e kept ready in
    omega (arith, paid, total-le step enabled cost left Kept pays (step s e) es still can)

pub run-append :
    {S E : Type 0} (step : S → E → S) (s : S) (es fs : List E)
    → run step s (es ++ fs) ≡ run step (run step s es) fs
run-append step s [] fs = refl
run-append step s (e ∷ es) fs = run-append step (step s e) es fs

pub CanRun-append :
    {S E : Type 0} (step : S → E → S) (enabled : E → S → Bool) (s : S) (es fs : List E)
    → CanRun step enabled s es
    → CanRun step enabled (run step s es) fs
    → CanRun step enabled s (es ++ fs)
CanRun-append step enabled s [] fs can more = more
CanRun-append step enabled s (e ∷ es) fs (ready, can) more =
    (ready, CanRun-append step enabled (step s e) es fs can more)

-- These events can happen one after the other, and lead from the one state to the other.
abbrev pub RunsTo : {S E : Type 0} → (S → E → S) → (E → S → Bool) → S → List E → S → Type 0
RunsTo step enabled p es q = CanRun step enabled p es × (run step p es ≡ q)

pub RunsTo-append :
    {S E : Type 0} (step : S → E → S) (enabled : E → S → Bool) (p q r : S) (es fs : List E)
    → RunsTo step enabled p es q
    → RunsTo step enabled q fs r
    → RunsTo step enabled p (es ++ fs) r
RunsTo-append step enabled p q r es fs (can, there) (can', there') = (
  CanRun-append step enabled p es fs can (subst (λ x. CanRun step enabled x fs) (sym there) can'),
  run-append step p es fs ∙ ap (λ x. run step x fs) there ∙ there',
)

-- ===== src/Wait/Group.antt =====
-- `WaitGroup` of src/kernel/wait_subsystem.hpp, and what its race promises. `none` stands for the
-- winner's index -1.
use co_rtos.Base.{
  ℕ, Ptr, none, some, Bool, true, false, List, [], ◌∷◌, length, replicate, if◌then◌else◌, ◌≡◌, refl,
  ap, ◌∙◌,
}

pub record WaitGroup : Type 0 where
  pub done : Bool
  pub winner_index : Ptr
  pub acquired : Bool
  pub expected_count : ℕ

unfoldable pub begin : ℕ → WaitGroup → WaitGroup
begin n g = record g { done = false; winner_index = none; acquired = false; expected_count = n }

unfoldable pub try_win : WaitGroup → ℕ → Bool → WaitGroup × Bool
try_win g i a =
    if g.done
    then (g, false)
    else (record g { done = true; winner_index = some i; acquired = a }, true)

-- Attempts in the order in which their exchanges take effect, and whether each won.
unfoldable pub attempts : WaitGroup → List (ℕ × Bool) → WaitGroup × List Bool
attempts g [] = (g, [])
attempts g (t ∷ ts) =
    let (g', won) = try_win g t.0 t.1 in let (g'', rest) = attempts g' ts in (g'', won ∷ rest)

try_win-done : (g : WaitGroup) (i : ℕ) (a : Bool) → g.done ≡ true → try_win g i a ≡ (g, false)
unfolding try_win
try_win-done g i a d = simp d refl

attempts-done :
    (g : WaitGroup) (ts : List (ℕ × Bool))
    → g.done ≡ true
    → attempts g ts ≡ (g, replicate (length ts) false)
unfolding attempts
attempts-done g [] d = refl
attempts-done g (t ∷ ts) d =
    ap (λ r. let s = attempts r.0 ts in (s.0, r.1 ∷ s.1)) (try_win-done g t.0 t.1 d)
    ∙ ap (λ s. (s.0, false ∷ s.1)) (attempts-done g ts d)

-- Of the attempts to win after a `begin`, in whatever order they take effect, the first wins and
-- no other does, and the group keeps the first one's index and flag.
pub attempts-first :
    (n : ℕ) (g : WaitGroup) (t : ℕ × Bool) (ts : List (ℕ × Bool))
    → attempts (begin n g) (t ∷ ts) ≡ (
      record { done = true; winner_index = some t.0; acquired = t.1; expected_count = n },
      true ∷ replicate (length ts) false,
    )
unfolding attempts try_win begin
attempts-first n g t ts =
    ap (λ s. (s.0, true ∷ s.1))
      (attempts-done
        (record { done = true; winner_index = some t.0; acquired = t.1; expected_count = n }) ts
        refl)

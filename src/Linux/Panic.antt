-- ===== src/Linux/Panic.antt =====
-- `print_formatted_context` of src/port/linux_boost/port_linux_boost.cpp: the lines of the source
-- around the one that failed. A file is the list of its lines; the colours are not modelled.
use co_rtos.Base.{
  ℕ, ◌+◌, ◌-◌, ◌≤◌, Option, none, some, Bool, ltb, leb, ◌==◌, ◌&&◌, if◌then◌else◌, List, [], ◌∷◌,
  ◌≡◌, refl, inl, inr, ◌∙◌, Bool-cases, arith,
}

-- A printed line: its number, its text, and whether it is marked as the target.
pub record Printed : Type 0 where
  pub number : ℕ
  pub text : ℕ
  pub is_target : Bool

-- The loop, once `current` lines have been read. A text is the address of its string.
unfoldable pub print_lines : ℕ → ℕ → ℕ → ℕ → List ℕ → List Printed
print_lines target start end current [] = []
print_lines target start end current (text ∷ texts) =
    let now = current + 1 in
    let rest = print_lines target start end now texts in
    let after = if ltb end now then [] else rest in
    if leb start now && leb now end
    then record { number = now; text = text; is_target = now == target } ∷ after
    else after

-- A file that does not open is `none`.
unfoldable pub print_formatted_context : Option (List ℕ) → ℕ → ℕ → List Printed
print_formatted_context none target range = []
print_formatted_context (some texts) target range =
    let start = if ltb range target then target - range else 1 in
    print_lines target start (target + range) 0 texts

-- All the lines, numbered from `current + 1` on.
pub numbered : ℕ → ℕ → List ℕ → List Printed
numbered target current [] = []
numbered target current (text ∷ texts) =
    record { number = current + 1; text = text; is_target = current + 1 == target }
    ∷ numbered target (current + 1) texts

-- Those with a number from `start` to `end`.
pub within : ℕ → ℕ → List Printed → List Printed
within start end [] = []
within start end (p ∷ ps) =
    let rest = within start end ps in
    if leb start p.number && leb p.number end then p ∷ rest else rest

-- The lines that are no further from the target than the range.
abbrev pub lines_around : List ℕ → ℕ → ℕ → List Printed
lines_around texts target range = within (target - range) (target + range) (numbered target 0 texts)

within-beyond :
    (target start end current : ℕ) (texts : List ℕ)
    → end ≤ current
    → within start end (numbered target current texts) ≡ []
unfolding within numbered
within-beyond target start end current [] h = refl
within-beyond target start end current (x ∷ xs) h =
    ground (arith, within-beyond target start end (current + 1) xs)

print_lines_lem :
    (target start end current : ℕ) (texts : List ℕ)
    → print_lines target start end current texts ≡ within start end (numbered target current texts)
unfolding print_lines within numbered
print_lines_lem target start end current [] = refl
print_lines_lem target start end current (x ∷ xs) = ground (
  arith,
  print_lines_lem target start end (current + 1) xs,
  within-beyond target start end (current + 1) xs,
)

-- Lines are numbered from 1 on.
within-one :
    (target end current : ℕ) (texts : List ℕ)
    → within 1 end (numbered target current texts) ≡ within 0 end (numbered target current texts)
unfolding within numbered
within-one target end current [] = refl
within-one target end current (x ∷ xs) = ground (arith, within-one target end (current + 1) xs)

-- The dump prints the lines of the file whose numbers are no further from the target than the
-- range, in order and each once, and marks the target's; it stops early without losing any.
pub print_formatted_context-eq-lines_around :
    (texts : List ℕ) (target range : ℕ)
    → print_formatted_context (some texts) target range ≡ lines_around texts target range
unfolding print_formatted_context
print_formatted_context-eq-lines_around texts target range = elim (Bool-cases (ltb range target)) [
  | inl far ↦ rw far (print_lines_lem target (target - range) (target + range) 0 texts)
  | inr near ↦
      let e : target - range ≡ 0 = ground arith in
      rw (near, e)
        (print_lines_lem target 1 (target + range) 0 texts
          ∙ within-one target (target + range) 0 texts)
]

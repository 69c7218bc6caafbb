-- ===== src/Linux/Shutdown/Invariant.antt =====
-- What holds in every reachable state of the cores.
use co_rtos.Base.{
  ℕ, ◌<◌, ◌≤◌, ◌==◌, leb, Bool, true, false, update, ◌≡◌, ◌⊎◌, inl, inr, refl, Bool-cases, arith,
}
use co_rtos.Linux.Shutdown.{
  Shared, Pc, entering, running, idling, checking, quiescent, left, poking, Move, enter, create,
  post, exit, yield, idle, wake, turn, quiesce, win, lose, poke, leave, System, Step, step, begin,
  Reach, start, later,
}

-- The core has seen that no thread is left.
abbrev pub saw_quiet : Pc → Bool
saw_quiet quiescent = true
saw_quiet left = true
saw_quiet (poking k) = true
saw_quiet _ = false

-- The core has the broadcast before it at core `j` or earlier.
abbrev pub pokes_from : ℕ → Pc → Bool
pokes_from j (poking k) = leb k j
pokes_from j _ = false

-- The core waits, or may come to wait, for a poke.
abbrev pub may_wait : Pc → Bool
may_wait entering = true
may_wait running = true
may_wait idling = true
may_wait _ = false

-- The core is about to look at the number of contexts or at the flag.
abbrev pub looks : Pc → Bool
looks checking = true
looks quiescent = true
looks _ = false

abbrev pub is_poking : Pc → Bool
is_poking (poking k) = true
is_poking _ = false

pub record Inv (cores : ℕ) (m : Shared) (pc : ℕ → Pc) : Type 0 where
  pub quiet : (i : ℕ) → saw_quiet (pc i) ≡ true → m.active ≤ cores
  pub requested : m.shutdown ≡ true → m.active ≤ cores
  pub began : (i : ℕ) → is_poking (pc i) ≡ true → m.shutdown ≡ true
  pub unique : (i j : ℕ) → is_poking (pc i) ≡ true → is_poking (pc j) ≡ true → i ≡ j
  pub poked :
      (j : ℕ)
      → j < cores
      → m.shutdown ≡ true
      → may_wait (pc j) ≡ true
      → (m.pending j ≡ true) ⊎ ((i : ℕ) × (i < cores) × (pokes_from j (pc i) ≡ true))
  pub noticed :
      m.active ≤ cores → (m.shutdown ≡ true) ⊎ ((i : ℕ) × (i < cores) × (looks (pc i) ≡ true))

begin-Inv : (cores active : ℕ) → cores < active → Inv cores (begin active).mem (begin active).pc
begin-Inv cores active more = record {
  quiet = λ i h. cc;
  requested = λ h. cc;
  began = λ i h. cc;
  unique = λ i j h k. cc;
  poked = λ j lt h w. cc;
  noticed = λ h. absurd (omega arith);
}

-- The premise of a move.
abbrev pub Guard : {cores i : ℕ} {m m' : Shared} {p p' : Pc} → Move cores m i p m' p' → Type 0
Guard {cores} {m = m} (create _ _) = cores < m.active
Guard {cores} {m = m} (post _ _) = cores < m.active
Guard {cores} {m = m} (exit _) = cores < m.active
Guard {cores} {m = m} (yield _) = cores < m.active
Guard {i = i} {m = m} (wake _) = m.pending i ≡ true
Guard {cores} {m = m} (turn _) = cores < m.active
Guard {cores} {m = m} (quiesce _) = m.active ≤ cores
Guard {m = m} (win _) = m.shutdown ≡ false
Guard {m = m} (lose _) = m.shutdown ≡ true
Guard {cores} (poke {k} _) = k < cores
Guard {cores} (leave {k} _) = cores ≤ k
Guard _ = Unit

pub guard : {cores i : ℕ} {m m' : Shared} {p p' : Pc} (mv : Move cores m i p m' p') → Guard mv
guard (create g _) = g
guard (post _ g) = g
guard (exit g) = g
guard (yield g) = g
guard (wake g) = g
guard (turn g) = g
guard (quiesce g) = g
guard (win g) = g
guard (lose g) = g
guard (poke g) = g
guard (leave g) = g
guard enter = tt
guard idle = tt

module _ {cores : ℕ} {m : Shared} {pc : ℕ → Pc} (inv : Inv cores m pc) (i : ℕ)
    (here : i < cores) where
  open inv use {quiet, requested, began, unique, poked, noticed}

  Move-quiet :
      {p p' : Pc} {m' : Shared}
      → Move cores m i p m' p'
      → pc i ≡ p
      → (j : ℕ) → saw_quiet (update pc i p' j) ≡ true
      → m'.active ≤ cores
  Move-quiet enter e j h = ground (arith, quiet j)
  Move-quiet mv e j h = ground (arith, guard mv, quiet j)

  Move-requested :
      {p p' : Pc} {m' : Shared}
      → Move cores m i p m' p'
      → pc i ≡ p
      → m'.shutdown ≡ true
      → m'.active ≤ cores
  Move-requested enter e h = requested h
  Move-requested mv e h = ground (arith, guard mv, requested, quiet i)

  Move-began :
      {p p' : Pc} {m' : Shared}
      → Move cores m i p m' p'
      → pc i ≡ p
      → (j : ℕ) → is_poking (update pc i p' j) ≡ true
      → m'.shutdown ≡ true
  Move-began enter e j h = ground (arith, began j)
  Move-began mv e j h = ground (arith, guard mv, began j, began i)

  Move-unique :
      {p p' : Pc} {m' : Shared}
      → Move cores m i p m' p'
      → pc i ≡ p
      → (a b : ℕ) → is_poking (update pc i p' a) ≡ true
      → is_poking (update pc i p' b) ≡ true
      → a ≡ b
  Move-unique enter e a b ha hb = ground (arith, unique a b)
  Move-unique mv e a b ha hb =
      ground (arith, guard mv, unique a b, unique i a, unique i b, began a, began b)

  -- A broadcast before core `j` or earlier stands, or has just poked core `j`.
  Move-poked :
      {p p' : Pc} {m' : Shared}
      → Move cores m i p m' p'
      → pc i ≡ p
      → (j : ℕ) → j < cores
      → m'.shutdown ≡ true
      → may_wait (update pc i p' j) ≡ true
      → (m'.pending j ≡ true) ⊎ ((a : ℕ) × (a < cores) × (pokes_from j (update pc i p' a) ≡ true))
  Move-poked (create g b) e j lt on w = absurd (omega (arith, requested on))
  Move-poked (post k g) e j lt on w = absurd (omega (arith, requested on))
  Move-poked (exit g) e j lt on w = absurd (omega (arith, requested on))
  Move-poked (yield g) e j lt on w = absurd (omega (arith, requested on))
  Move-poked (turn g) e j lt on w = absurd (omega (arith, requested on))
  Move-poked (win g) e j lt on w = inr (i, here, ground arith)
  Move-poked (poke {k} g) e j lt on w = elim (Bool-cases (j == k)) [
    | inl now ↦ inl (ground arith)
    | inr other ↦ elim (poked j lt on (ground arith)) [
      | inl set ↦ inl (ground arith)
      | inr (a, la, from) ↦ inr (a, la, ground arith)
    ]
  ]
  Move-poked mv e j lt on w = elim (poked j lt (ground (arith, began i)) (ground arith)) [
    | inl set ↦ inl (ground arith)
    | inr (a, la, from) ↦ inr (a, la, ground (arith, guard mv))
  ]

  Move-noticed :
      {p p' : Pc} {m' : Shared}
      → Move cores m i p m' p'
      → pc i ≡ p
      → m'.active ≤ cores
      → (m'.shutdown ≡ true) ⊎ ((a : ℕ) × (a < cores) × (looks (update pc i p' a) ≡ true))
  Move-noticed (create g b) e h = absurd (omega arith)
  Move-noticed (post k g) e h = absurd (omega arith)
  Move-noticed (yield g) e h = absurd (omega arith)
  Move-noticed (turn g) e h = absurd (omega arith)
  Move-noticed (exit g) e h = inr (i, here, ground arith)
  Move-noticed (wake g) e h = inr (i, here, ground arith)
  Move-noticed (quiesce g) e h = inr (i, here, ground arith)
  Move-noticed (win g) e h = inl refl
  Move-noticed (lose g) e h = inl g
  Move-noticed (poke g) e h = inl (ground (arith, began i))
  Move-noticed (leave g) e h = inl (ground (arith, began i))
  Move-noticed mv e h = elim (noticed h) [
    | inl on ↦ inl on
    | inr (a, la, l) ↦ inr (a, la, ground arith)
  ]

  Move-Inv : {p' : Pc} {m' : Shared} → Move cores m i (pc i) m' p' → Inv cores m' (update pc i p')
  Move-Inv mv = record {
    quiet = Move-quiet mv refl;
    requested = Move-requested mv refl;
    began = Move-began mv refl;
    unique = Move-unique mv refl;
    poked = Move-poked mv refl;
    noticed = Move-noticed mv refl;
  }

pub Step-Inv :
    {cores : ℕ} {s t : System} → Step cores s t → Inv cores s.mem s.pc → Inv cores t.mem t.pc
Step-Inv (step i lt mv) inv = Move-Inv inv i lt mv

pub Reach-Inv : {cores : ℕ} {s : System} → Reach cores s → Inv cores s.mem s.pc
Reach-Inv {cores} (start {active} more) = begin-Inv cores active more
Reach-Inv (later r st) = Step-Inv st (Reach-Inv r)

-- In every reachable state: once a core is out of its loop, or shutdown is requested, there are
-- no more contexts than cores, so no thread is left; at most one core broadcasts; and after the
-- request a core that waits or may come to wait has its poke pending or still to come.
pub Reach-IsOrderly :
    {cores : ℕ} {s : System}
    → Reach cores s
    → ((i : ℕ) → saw_quiet (s.pc i) ≡ true → s.mem.active ≤ cores)
      × (s.mem.shutdown ≡ true → s.mem.active ≤ cores)
      × ((i j : ℕ) → is_poking (s.pc i) ≡ true → is_poking (s.pc j) ≡ true → i ≡ j)
      × ((j : ℕ)
          → j < cores
          → s.mem.shutdown ≡ true
          → may_wait (s.pc j) ≡ true
          → (s.mem.pending j ≡ true) ⊎ ((i : ℕ) × (i < cores) × (pokes_from j (s.pc i) ≡ true)))
Reach-IsOrderly r = let v = Reach-Inv r in (v.quiet, v.requested, v.unique, v.poked)

-- ===== src/Wait/Until/Laws.antt =====
-- A wait ends exactly when its predicate is found true.
use co_rtos.Base.{
  zero, suc, get_elem?, Distinct, ◌⊎◌, ℕ, ◌≤◌, ◌<◌, Ptr, Option, none, some, Bool, true, false,
  List, [], ◌∷◌, ltb, leb, length, ◌>>=◌, ◌≡◌, ◌↔◌, refl, ap, sym, subst, ◌∙◌, inl, inr, Bool-cases,
  Option-cases, arith,
}
use co_rtos.Config.{max_wait_nodes}
use co_rtos.Threads.{Waiter}
use co_rtos.Wait.Block.{World, prepare_block, wait_result}
use co_rtos.Wait.Refs.Laws as RefsLaws
use co_rtos.Wait.Refs
use co_rtos.Wait.Until.{Others, notify_block, sleep, wait_loop, wait_until}

some_inj : {A : Type 0} (a b : A) → ◌≡◌ {A = Option A} (some a) (some b) → a ≡ b
some_inj a b e = cc

both_ways : {c : Bool} → c ≡ true → c ≡ false → ⊥
both_ways p q = cc

no_result : {A : Type 0} {a : A} → ◌≡◌ {A = Option A} none (some a) → ⊥
no_result e = cc

module _ (hook : ℕ → Waiter → World → World) (predicate : World → Bool) (t : ℕ) (vs : List ℕ) where
  -- The thread blocks on the waitables, tells them, and runs again.
  pub record Slept (others : Others) (w woken : World) : Type 0 where
    pub blocked : World
    pub blocks : prepare_block t vs w ≡ some blocked
    pub wakes : others (notify_block hook t vs blocked) ≡ some woken

  -- The result of a wait that has slept `n` times: `r` if it has not, and else what the group says
  -- of the last wake-up.
  abbrev pub Result : ℕ → Ptr × Bool → World → Ptr → Bool → Type 0
  Result zero r w' i b = (i ≡ r.0) × (b ≡ r.1)
  Result (suc n) r w' i b = (i ≡ (w'.groups t).winner_index) × (b ≡ (w'.groups t).acquired)

  -- `w'` is the first of a sequence of worlds from `w` on in which the predicate is true; the thread
  -- sleeps from each to the next.
  pub record FirstTrue (es : List Others) (r : Ptr × Bool) (w w' : World) (i : Ptr) (b : Bool)
      : Type 0 where
    pub sleeps : ℕ
    pub seen : ℕ → World
    pub first : seen 0 ≡ w
    pub last : seen sleeps ≡ w'
    pub asleep :
        (m : ℕ)
        → m < sleeps
        → (predicate (seen m) ≡ false)
          × ((e : Others) × (get_elem? es m ≡ some e) × Slept e (seen m) (seen (suc m)))
    pub holds : predicate w' ≡ true
    pub result : Result sleeps r w' i b

  slept-sleep : (e : Others) (w woken : World) → Slept e w woken → sleep hook e t vs w ≡ some woken
  unfolding sleep
  slept-sleep e w woken s = rw s.blocks s.wakes

  sleep-Slept : (e : Others) (w woken : World) → sleep hook e t vs w ≡ some woken → Slept e w woken
  unfolding sleep
  sleep-Slept e w woken q = elim (Option-cases (prepare_block t vs w)) [
    | inl fails ↦
        absurd (no_result (sym (ap (λ o. o >>= λ x. e (notify_block hook t vs x)) fails) ∙ q))
    | inr (x, runs) ↦ record {
      blocked = x;
      blocks = runs;
      wakes = sym (ap (λ o. o >>= λ x. e (notify_block hook t vs x)) runs) ∙ q;
    }
  ]

  -- After a sleep, the result of the rest of the wait starts with that of the wake-up.
  later :
      (n : ℕ) (r : Ptr × Bool) (woken w' : World) (i : Ptr) (b : Bool)
      → (n ≡ 0 → w' ≡ woken)
      → Result (suc n) r w' i b ↔ Result n (wait_result t woken) w' i b
  unfolding wait_result
  later zero r woken w' i b same =
      let e = same refl in
      (
        λ (p, q).
            (p ∙ ap (λ x. (x.groups t).winner_index) e, q ∙ ap (λ x. (x.groups t).acquired) e),
        λ (p, q). (
          p ∙ sym (ap (λ x. (x.groups t).winner_index) e),
          q ∙ sym (ap (λ x. (x.groups t).acquired) e),
        ),
      )
  later (suc n) r woken w' i b same = (λ q. q, λ q. q)

  shift : World → (ℕ → World) → ℕ → World
  shift w seen zero = w
  shift w seen (suc m) = seen m

  FirstTrue-at_once :
      (es : List Others) (w : World) (r : Ptr × Bool) (w' : World) (i : Ptr) (b : Bool)
      → predicate w ≡ true
      → ◌≡◌ {A = Option (World × Ptr × Bool)} (some (w, r.0, r.1)) (some (w', i, b))
      → FirstTrue es r w w' i b
  FirstTrue-at_once es w r w' i b now q =
      let same = some_inj (w, r.0, r.1) (w', i, b) q in
      record {
        sleeps = 0;
        seen = λ m. w;
        first = refl;
        last = ap (λ x. x.0) same;
        asleep = λ m lt. absurd (omega (arith, lt));
        holds = subst (λ x. predicate x ≡ true) (ap (λ x. x.0) same) now;
        result = (sym (ap (λ x. x.1) same), sym (ap (λ x. x.2) same));
      }

  FirstTrue-after :
      (e : Others) (es : List Others) (w woken : World) (r : Ptr × Bool) (w' : World) (i : Ptr)
      (b : Bool)
      → predicate w ≡ false
      → Slept e w woken
      → FirstTrue es (wait_result t woken) woken w' i b
      → FirstTrue (e ∷ es) r w w' i b
  unfolding shift
  FirstTrue-after e es w woken r w' i b later_on slept f = record {
    sleeps = suc f.sleeps;
    seen = shift w f.seen;
    first = refl;
    last = f.last;
    asleep = asleep;
    holds = f.holds;
    result = (later f.sleeps r woken w' i b same).1 f.result;
  }
    where
      same : f.sleeps ≡ 0 → w' ≡ woken
      same z = sym f.last ∙ ap f.seen z ∙ f.first

      asleep :
          (m : ℕ)
          → m < suc f.sleeps
          → (predicate (shift w f.seen m) ≡ false)
            × ((x : Others) × (get_elem? (e ∷ es) m ≡ some x)
                × Slept x (shift w f.seen m) (shift w f.seen (suc m)))
      asleep zero lt = (later_on, (e, refl, subst (λ x. Slept e w x) (sym f.first) slept))
      asleep (suc m) lt = f.asleep m (omega (arith, lt))

  module _ (locked : List ℕ) (lockable : Refs.lock_order vs ≡ some locked) where
    loop_true :
        (es : List Others) (w : World) (r : Ptr × Bool)
        → predicate w ≡ true
        → wait_loop hook predicate t vs es w r ≡ some (w, r.0, r.1)
    unfolding wait_loop
    loop_true [] w r p = rw (lockable, p) refl
    loop_true (e ∷ es) w r p = rw (lockable, p) refl

    loop_end :
        (w : World) (r : Ptr × Bool)
        → predicate w ≡ false
        → wait_loop hook predicate t vs [] w r ≡ none
    unfolding wait_loop
    loop_end w r p = rw (lockable, p) refl

    loop_false :
        (e : Others) (es : List Others) (w : World) (r : Ptr × Bool)
        → predicate w ≡ false
        → wait_loop hook predicate t vs (e ∷ es) w r
          ≡ (sleep hook e t vs w >>= λ w'. wait_loop hook predicate t vs es w' (wait_result t w'))
    unfolding wait_loop
    loop_false e es w r p = rw (lockable, p) refl

    loop_finds :
        (n : ℕ) (es : List Others) (r : Ptr × Bool) (seen : ℕ → World) (i : Ptr) (b : Bool)
        → ((m : ℕ)
            → m < n
            → (predicate (seen m) ≡ false)
              × ((e : Others) × (get_elem? es m ≡ some e) × Slept e (seen m) (seen (suc m))))
        → predicate (seen n) ≡ true
        → Result n r (seen n) i b
        → wait_loop hook predicate t vs es (seen 0) r ≡ some (seen n, i, b)
    loop_finds zero es r seen i b asleep p (ei, eb) =
        loop_true es (seen 0) r p
        ∙ ap (λ j. some (seen 0, j, r.1)) (sym ei)
        ∙ ap (λ c. some (seen 0, i, c)) (sym eb)
    loop_finds (suc n) [] r seen i b asleep p res =
        let (q, (e, at, s)) = asleep 0 (omega arith) in absurd (no_result at)
    loop_finds (suc n) (e ∷ es) r seen i b asleep p res =
        let (q, (e', at, s)) = asleep 0 (omega arith) in
        let same = sym (some_inj e e' at) in
        loop_false e es (seen 0) r q
        ∙ ap (λ o. o >>= λ w'. wait_loop hook predicate t vs es w' (wait_result t w'))
            (slept-sleep e (seen 0) (seen 1) (subst (λ x. Slept x (seen 0) (seen 1)) same s))
        ∙ loop_finds n es (wait_result t (seen 1)) (λ m. seen (suc m)) i b
            (λ m lt. asleep (suc m) (omega arith)) p
            ((later n r (seen 1) (seen (suc n)) i b (λ z. ap (λ k. seen (suc k)) z)).0 res)

    loop-FirstTrue :
        (es : List Others) (w : World) (r : Ptr × Bool) (w' : World) (i : Ptr) (b : Bool)
        → wait_loop hook predicate t vs es w r ≡ some (w', i, b)
        → FirstTrue es r w w' i b
    loop-FirstTrue [] w r w' i b q = elim (Bool-cases (predicate w)) [
      | inl now ↦ FirstTrue-at_once [] w r w' i b now (sym (loop_true [] w r now) ∙ q)
      | inr later_on ↦ absurd (no_result (sym (loop_end w r later_on) ∙ q))
    ]
    loop-FirstTrue (e ∷ es) w r w' i b q = elim (Bool-cases (predicate w)) [
      | inl now ↦ FirstTrue-at_once (e ∷ es) w r w' i b now (sym (loop_true (e ∷ es) w r now) ∙ q)
      | inr later_on ↦
          let rest : World → Option (World × Ptr × Bool) =
            λ x. wait_loop hook predicate t vs es x (wait_result t x) in
          let run = sym (loop_false e es w r later_on) ∙ q in
          elim (Option-cases (sleep hook e t vs w)) [
            | inl fails ↦ absurd (no_result (sym (ap (λ o. o >>= rest) fails) ∙ run))
            | inr (woken, sleeps) ↦
                FirstTrue-after e es w woken r w' i b later_on (sleep-Slept e w woken sleeps) (
                  loop-FirstTrue es woken (wait_result t woken) w' i b
                    (sym (ap (λ o. o >>= rest) sleeps) ∙ run))
          ]
    ]

    loop-iff-FirstTrue :
        (es : List Others) (w : World) (r : Ptr × Bool) (w' : World) (i : Ptr) (b : Bool)
        → (wait_loop hook predicate t vs es w r ≡ some (w', i, b)) ↔ FirstTrue es r w w' i b
    loop-iff-FirstTrue es w r w' i b = (
      loop-FirstTrue es w r w' i b,
      λ f.
          ap (λ x. wait_loop hook predicate t vs es x r) (sym f.first)
          ∙ loop_finds f.sleeps es r f.seen i b f.asleep
              (subst (λ x. predicate x ≡ true) (sym f.last) f.holds)
              (subst (λ x. Result f.sleeps r x i b) (sym f.last) f.result)
          ∙ ap (λ x. some (x, i, b)) f.last,
    )

module _ (hook : ℕ → Waiter → World → World) (predicate : World → Bool) (t : ℕ) (vs : List ℕ)
    (meanwhile : World → World) (es : List Others) where
  at_once :
      (w w' : World) (i : Ptr) (b : Bool)
      → predicate w ≡ true
      → (◌≡◌ {A = Option (World × Ptr × Bool)} (some (w, none, false)) (some (w', i, b))) ↔ (
          ((predicate w ≡ true) × (w' ≡ w) × (i ≡ none) × (b ≡ false))
          ⊎ ((predicate w ≡ false)
              × FirstTrue hook predicate t vs es (none, false) (meanwhile w) w' i b))
  at_once w w' i b now = (
    λ q.
        let same = some_inj (w, none, false) (w', i, b) q in
        inl (now, sym (ap (λ x. x.0) same), sym (ap (λ x. x.1) same), sym (ap (λ x. x.2) same)),
    λ c. elim c [ inl (p, e, ei, eb) ↦ cc | inr (p, f) ↦ absurd (both_ways now p) ],
  )

  slow :
      (locked : List ℕ)
      → Refs.lock_order vs ≡ some locked
      → (w w' : World) (i : Ptr) (b : Bool) → predicate w ≡ false
      → (wait_loop hook predicate t vs es (meanwhile w) (none, false) ≡ some (w', i, b)) ↔ (
          ((predicate w ≡ true) × (w' ≡ w) × (i ≡ none) × (b ≡ false))
          ⊎ ((predicate w ≡ false)
              × FirstTrue hook predicate t vs es (none, false) (meanwhile w) w' i b))
  slow locked lockable w w' i b not_yet =
      let both =
        loop-iff-FirstTrue hook predicate t vs locked lockable es (meanwhile w) (none, false) w' i
          b in
      (
        λ q. inr (not_yet, both.0 q),
        λ c. elim c [ inl (p, e, ei, eb) ↦ absurd (both_ways p not_yet) | inr (p, f) ↦ both.1 f ],
      )

  fast :
      (w : World)
      → 0 < length vs
      → length vs ≤ max_wait_nodes
      → predicate w ≡ true
      → wait_until hook predicate t vs meanwhile es w ≡ some (w, none, false)
  unfolding wait_until
  fast w some_vs fits now =
      let one : ltb 0 (length vs) ≡ true = ground arith in
      let few : leb (length vs) max_wait_nodes ≡ true = ground arith in rw (one, few, now) refl

  looped :
      (w : World)
      → 0 < length vs
      → length vs ≤ max_wait_nodes
      → predicate w ≡ false
      → wait_until hook predicate t vs meanwhile es w
        ≡ wait_loop hook predicate t vs es (meanwhile w) (none, false)
  unfolding wait_until
  looped w some_vs fits not_yet =
      let one : ltb 0 (length vs) ≡ true = ground arith in
      let few : leb (length vs) max_wait_nodes ≡ true = ground arith in rw (one, few, not_yet) refl

  -- A wait by the thread `t` for one to eight distinct waitables returns at once, with the empty
  -- result (no index, not acquired), if the predicate is true when it is called. If it is false
  -- then, the wait returns exactly in the first world, of the one after what the others do in the
  -- meantime and those after each of the thread's sleeps, in which the predicate is true: the
  -- thread has blocked on the waitables in every world before. The result is again the empty one
  -- if the thread has not slept, and else what its wait group says of the last wake-up. It
  -- returns in no other world and with no other result.
  pub wait_until-iff-FirstTrue :
      (w w' : World) (i : Ptr) (b : Bool)
      → 0 < length vs
      → length vs ≤ max_wait_nodes
      → Distinct vs
      → (wait_until hook predicate t vs meanwhile es w ≡ some (w', i, b)) ↔ (
          ((predicate w ≡ true) × (w' ≡ w) × (i ≡ none) × (b ≡ false))
          ⊎ ((predicate w ≡ false)
              × FirstTrue hook predicate t vs es (none, false) (meanwhile w) w' i b))
  wait_until-iff-FirstTrue w w' i b some_vs fits distinct =
      let (locked, lockable, ups, members) = RefsLaws.lock_order-Ascending vs fits distinct in
      elim (Bool-cases (predicate w)) [
        | inl now ↦
            let run = fast w some_vs fits now in
            let both = at_once w w' i b now in (λ q. both.0 (sym run ∙ q), λ c. run ∙ both.1 c)
        | inr not_yet ↦
            let run = looped w some_vs fits not_yet in
            let both = slow locked lockable w w' i b not_yet in
            (λ q. both.0 (sym run ∙ q), λ c. run ∙ both.1 c)
      ]

-- ===== src/Agent/Captures/Budget.antt =====
-- The byte budget: what is held never passes it, and the counts are those of what is held.
use mikroscope.Common.{
  ℕ, ◌+◌, ◌-◌, ◌≤◌, List, [], ◌∷◌, ◌++◌, Option, none, some, Bool, true, false, ◌≡◌, refl, arith,
  Bytes, ℤ, length, sum_by, sum_by-append, All, All-append, ltb, bytes_eq, Bool-cases, inl, inr,
  ◌==◌, length-drop,
}
use mikroscope.Agent.Ring.{Entry, Ring}
use mikroscope.Agent.Captures.Types.{
  Condition, Capture, Marker, Captures, max_markers, policy_last, new_captures, CaptureConfig,
}
use mikroscope.Agent.Captures.Fire.{fire, arm, armed, marker_of, keep_markers}
use mikroscope.Agent.Captures.Collect.{
  size_of, window, make_room, store_window, retain, collect_due, collect_pending, collect,
  after_push, finalize, remove_held, delete, filled,
}

module _ {F : Type 0} where
  abbrev pub held_bytes : List (Capture F) → ℕ
  held_bytes = sum_by (λ cp. cp.bytes)

  -- A retained capture states the size of the lines it pins, their number, and holds at least one.
  abbrev pub Honest : Capture F → Type 0
  Honest cp = (cp.bytes ≡ size_of cp.entries) × (cp.samples ≡ length cp.entries) × (1 ≤ cp.samples)

  pub record WithinBudget (c : Captures F) : Type 0 where
    pub exact : c.bytes ≡ held_bytes c.held
    pub capped : c.bytes ≤ c.cfg.budget
    pub few_markers : length c.markers ≤ max_markers
    pub honest : All Honest c.held

  pub make_room_bytes :
      (last : Bool) (budget size : ℕ) (held : List (Capture F)) (bytes : ℕ)
      → bytes ≡ held_bytes held
      → bytes ≤ budget
      → let r = make_room last budget size held bytes in
        (r.1 ≡ held_bytes r.0) × (r.1 ≤ budget) × (r.2 ≡ true → r.1 + size ≤ budget)
  unfolding make_room
  make_room_bytes last budget size [] bytes e le = ground arith
  make_room_bytes last budget size (h ∷ hs) bytes e le =
      ground (arith, make_room_bytes last budget size hs (bytes - h.bytes))

  pub make_room-All :
      (P : Capture F → Type 0) (last : Bool) (budget size : ℕ) (held : List (Capture F)) (bytes : ℕ)
      → All P held
      → All P (make_room last budget size held bytes).0
  unfolding make_room
  make_room-All P last budget size [] bytes h = tt
  make_room-All P last budget size (c ∷ cs) bytes h =
      ground (arith, make_room-All P last budget size cs (bytes - c.bytes) h.1)

  keep_markers-length : (ms : List (Marker F)) → length (keep_markers ms) ≤ max_markers
  unfolding keep_markers
  keep_markers-length ms = ground (arith, length-drop (length ms - max_markers) ms)

  pub new_captures-WithinBudget :
      (cfg : CaptureConfig F) {c : Captures F} → new_captures cfg ≡ some c → WithinBudget c
  unfolding new_captures
  new_captures-WithinBudget cfg h = ground arith

  arm-WithinBudget :
      (zero : F) (cause : Bytes) (cond : Option (Condition F)) (field : Bytes) (value : F) (seq : ℕ)
      (mono wall : ℤ) (c : Captures F)
      → WithinBudget c
      → WithinBudget (arm zero cause cond field value seq mono wall c)
  unfolding arm
  arm-WithinBudget zero cause cond field value seq mono wall c w = record {
    exact = w.exact;
    capped = w.capped;
    few_markers =
        keep_markers-length
          (c.markers ++ marker_of (armed zero cause cond field value seq mono wall c) ∷ []);
    honest = w.honest;
  }

  -- Whatever `fire` does (arm, or count a suppression), the budget invariant stays.
  pub fire-WithinBudget :
      (zero : F) (cause : Bytes) (cond : Option (Condition F)) (field : Bytes) (value : F) (seq : ℕ)
      (mono wall : ℤ) (c : Captures F)
      → WithinBudget c
      → WithinBudget (fire zero cause cond field value seq mono wall c)
  unfolding fire
  fire-WithinBudget zero cause cond field value seq mono wall c w =
      ground (arith, arm-WithinBudget zero cause cond field value seq mono wall c)

  retain-WithinBudget :
      (held : List (Capture F)) (bytes : ℕ) (ok : Bool) (cp : Capture F) (c : Captures F)
      → WithinBudget c
      → bytes ≡ held_bytes held
      → bytes ≤ c.cfg.budget
      → (ok ≡ true → bytes + cp.bytes ≤ c.cfg.budget)
      → All Honest held
      → Honest cp
      → WithinBudget (retain (held, bytes, ok) cp c)
  unfolding retain
  retain-WithinBudget held bytes true cp c w e le fits all honest = record {
    exact = omega (arith, sum_by-append (λ x. x.bytes) held (cp ∷ []));
    capped = fits refl;
    few_markers = w.few_markers;
    honest = All-append Honest held (cp ∷ []) all (honest, tt);
  }
  retain-WithinBudget held bytes false cp c w e le fits all honest = record {
    exact = e;
    capped = le;
    few_markers = w.few_markers;
    honest = all;
  }

  store_window-WithinBudget :
      (cp : Capture F) (es : List (Entry F)) (c : Captures F)
      → WithinBudget c
      → WithinBudget (store_window cp es c)
  unfolding store_window
  store_window-WithinBudget cp [] c w = ground arith
  store_window-WithinBudget cp (e ∷ es) c w =
      let size = size_of (e ∷ es) in
      let last = bytes_eq c.cfg.policy policy_last in
      let r = make_room last c.cfg.budget size c.held c.bytes in
      let (exact, capped, fits) =
        make_room_bytes last c.cfg.budget size c.held c.bytes w.exact w.capped in
      let kept =
        retain-WithinBudget r.0 r.1 r.2 (filled cp e es (c.pre + c.post + 1)) c w exact capped fits
          (make_room-All Honest last c.cfg.budget size c.held c.bytes w.honest)
          (refl, refl, omega arith) in
      elim (Bool-cases (ltb c.cfg.budget size)) [
        | inl over ↦ rw over (record {
          exact = w.exact;
          capped = w.capped;
          few_markers = w.few_markers;
          honest = w.honest;
        })
        | inr fine ↦ rw fine kept
      ]

  pub collect-WithinBudget :
      (cp : Capture F) (ring : Ring F) (c : Captures F)
      → WithinBudget c
      → WithinBudget (collect cp ring c)
  unfolding collect
  collect-WithinBudget cp ring c w =
      store_window-WithinBudget cp (window cp (c.pre + c.post + 1) ring)
        (record c { pending = none })
        (record {
          exact = w.exact;
          capped = w.capped;
          few_markers = w.few_markers;
          honest = w.honest;
        })

  due-WithinBudget :
      (p : Option (Capture F)) (ring : Ring F) (seq : ℕ) (c : Captures F)
      → WithinBudget c
      → WithinBudget (collect_due p ring seq c)
  unfolding collect_due
  due-WithinBudget none ring seq c w = w
  due-WithinBudget (some cp) ring seq c w = elim (Bool-cases (ltb seq cp.last_seq)) [
    | inl early ↦ rw early w
    | inr due ↦ rw due (collect-WithinBudget cp ring c w)
  ]

  -- `AfterPush` keeps the budget invariant, whether it collects, refuses or waits.
  pub after_push-WithinBudget :
      (ring : Ring F) (seq : ℕ) (c : Captures F)
      → WithinBudget c
      → WithinBudget (after_push ring seq c)
  unfolding after_push
  after_push-WithinBudget ring seq c w = due-WithinBudget c.pending ring seq c w

  pending-WithinBudget :
      (p : Option (Capture F)) (ring : Ring F) (c : Captures F)
      → WithinBudget c
      → WithinBudget (collect_pending p ring c)
  unfolding collect_pending
  pending-WithinBudget none ring c w = w
  pending-WithinBudget (some cp) ring c w = collect-WithinBudget cp ring c w

  pub finalize-WithinBudget :
      (ring : Ring F) (c : Captures F) → WithinBudget c → WithinBudget (finalize ring c)
  unfolding finalize
  finalize-WithinBudget ring c w = pending-WithinBudget c.pending ring c w

  -- Removing a held capture takes its bytes, and only those, off the sum.
  pub remove_held-bytes :
      (id : ℕ) (held : List (Capture F))
      → held_bytes (remove_held id held).0 + (remove_held id held).1 ≡ held_bytes held
  unfolding remove_held
  remove_held-bytes id [] = omega arith
  remove_held-bytes id (cp ∷ cps) = ground (arith, remove_held-bytes id cps)

  remove_held-Honest :
      (id : ℕ) (held : List (Capture F)) → All Honest held → All Honest (remove_held id held).0
  unfolding remove_held
  remove_held-Honest id [] h = tt
  remove_held-Honest id (cp ∷ cps) h = elim (Bool-cases (cp.id == id)) [
    | inl found ↦ rw found h.1
    | inr other ↦ rw other (h.0, remove_held-Honest id cps h.1)
  ]

  -- Deleting a capture keeps the invariant: exactly its bytes are given back.
  pub delete-WithinBudget :
      (id : ℕ) (c : Captures F) → WithinBudget c → WithinBudget (delete id c).0
  unfolding delete
  delete-WithinBudget id c w = elim (Bool-cases (remove_held id c.held).2) [
    | inl found ↦ rw found (record {
      exact = omega (arith, w.exact, remove_held-bytes id c.held);
      capped = omega (arith, w.capped);
      few_markers = w.few_markers;
      honest = remove_held-Honest id c.held w.honest;
    })
    | inr absent ↦ rw absent w
  ]

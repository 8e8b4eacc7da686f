-- ===== src/Agent/Captures/Room.antt =====
-- The two retention policies: `last` evicts the oldest captures, and no more of them than it must;
-- `first` evicts none.
use mikroscope.Common.{
  Bool, ◌≢◌, bump, codes, length, ==_iff, ltb→lt, ltb→le, none, ℕ, zero, suc, ◌+◌, ◌-◌, ◌≤◌, ◌<◌,
  List, [], ◌∷◌, ◌++◌, true, false, ◌≡◌, refl, arith, drop, leb, ltb, leb→le, leb→lt, le→ltb,
  le→leb, bytes_eq, Bool-cases, inl, inr, ◌⊎◌, bytes_eq_iff,
}
use mikroscope.Agent.Ring.{Entry, Ring}
use mikroscope.Agent.Captures.Types.{Capture, Captures, policy_last, policy_first}
use mikroscope.Agent.Captures.Collect.{
  size_of, window, make_room, retain, store_window, collect, filled,
}
use mikroscope.Agent.Captures.Budget.{WithinBudget, held_bytes}

first-ne-last : bytes_eq policy_first policy_last ≡ false
unfolding bytes_eq
first-ne-last = refl

no_both : {a : Bool} → a ≡ false → a ≡ true → ⊥
no_both h k = cc

module _ {F : Type 0} where
  -- Room for `size` bytes, made by dropping the first `k` captures and no fewer.
  abbrev pub MinimalRoom : ℕ → ℕ → List (Capture F) → ℕ → Type 0
  MinimalRoom budget size held k =
      (held_bytes (drop k held) + size ≤ budget)
      × ((j : ℕ) → j < k → budget < held_bytes (drop j held) + size)

  make_room_last :
      (budget size : ℕ) (held : List (Capture F)) (bytes : ℕ)
      → size ≤ budget
      → bytes ≡ held_bytes held
      → (k : ℕ) × (make_room true budget size held bytes
          ≡ (drop k held, held_bytes (drop k held), true))
        × MinimalRoom budget size held k
  unfolding make_room
  make_room_last budget size [] bytes le e = (
    0,
    rw (le→leb (bytes + size) budget (omega arith), e) refl,
    (omega arith, λ j lt. absurd (omega arith)),
  )
  make_room_last budget size (h ∷ hs) bytes le e = elim (Bool-cases (leb (bytes + size) budget)) [
    | inl fits ↦
        (0, rw (fits, e) refl, (omega (arith, leb→le _ _ fits), λ j lt. absurd (omega arith)))
    | inr full ↦
        let (k, same, least) = make_room_last budget size hs (bytes - h.bytes) le (omega arith) in
        (suc k, rw full same, (least.0, later full least.1))
  ]
    where
      later :
          {k : ℕ}
          → leb (bytes + size) budget ≡ false
          → ((j : ℕ) → j < k → budget < held_bytes (drop j hs) + size)
          → (j : ℕ) → j < suc k
          → budget < held_bytes (drop j (h ∷ hs)) + size
      later full less zero lt = omega (arith, leb→lt _ _ full)
      later full less (suc j) lt = less j (omega arith)

  -- Under the policy `last` a window that is not empty and no larger than the budget is always
  -- retained, as the newest capture, and what is evicted for it is the shortest prefix of the held
  -- captures whose bytes make room: evicting fewer would not have fitted.
  pub collect_last :
      (cp : Capture F) (ring : Ring F) (c : Captures F) (e : Entry F) (es : List (Entry F))
      → WithinBudget c
      → c.cfg.policy ≡ policy_last
      → window cp (c.pre + c.post + 1) ring ≡ e ∷ es
      → size_of (e ∷ es) ≤ c.cfg.budget
      → (k : ℕ) × ((collect cp ring c).held
          ≡ drop k c.held ++ filled cp e es (c.pre + c.post + 1) ∷ [])
        × MinimalRoom c.cfg.budget (size_of (e ∷ es)) c.held k
  unfolding collect store_window retain
  collect_last cp ring c e es w last found fits =
      let is_last : bytes_eq c.cfg.policy policy_last ≡ true = (bytes_eq_iff _ _).1 last in
      let (k, made, least) =
        make_room_last c.cfg.budget (size_of (e ∷ es)) c.held c.bytes fits w.exact in
      (k, rw (found, is_last, made, le→ltb c.cfg.budget (size_of (e ∷ es)) fits) refl, least)

  make_room_first :
      (budget size : ℕ) (held : List (Capture F)) (bytes : ℕ)
      → make_room false budget size held bytes ≡ (held, bytes, leb (bytes + size) budget)
  unfolding make_room
  make_room_first budget size [] bytes = refl
  make_room_first budget size (h ∷ hs) bytes = elim (Bool-cases (leb (bytes + size) budget)) [
    | inl fits ↦ rw fits refl
    | inr full ↦ rw full refl
  ]

  -- A refused window changes neither the held captures nor their bytes.
  refused_unchanged :
      (cp : Capture F) (e : Entry F) (es : List (Entry F)) (c : Captures F)
      → bytes_eq c.cfg.policy policy_last ≡ false
      → leb (c.bytes + size_of (e ∷ es)) c.cfg.budget ≡ false
      → ((store_window cp (e ∷ es) c).held ≡ c.held)
        × ((store_window cp (e ∷ es) c).bytes ≡ c.bytes)
  unfolding store_window retain
  refused_unchanged cp e es c not_last full =
      let size = size_of (e ∷ es) in
      let made = make_room_first c.cfg.budget size c.held c.bytes in
      elim (Bool-cases (ltb c.cfg.budget size)) [
        | inl over ↦ rw over (refl, refl)
        | inr fine ↦ rw (fine, not_last, made, full) (refl, refl)
      ]

  -- Under the policy `first` no held capture is ever evicted: the window is appended if its bytes
  -- fit beside those held, and the held captures and their bytes stay as they are otherwise.
  pub collect_first :
      (cp : Capture F) (ring : Ring F) (c : Captures F) (e : Entry F) (es : List (Entry F))
      → c.cfg.policy ≡ policy_first
      → window cp (c.pre + c.post + 1) ring ≡ e ∷ es
      → let c' = collect cp ring c in
        ((c.bytes + size_of (e ∷ es) ≤ c.cfg.budget)
          × (c'.held ≡ c.held ++ filled cp e es (c.pre + c.post + 1) ∷ [])
          × (c'.bytes ≡ c.bytes + size_of (e ∷ es)))
        ⊎ ((c.cfg.budget < c.bytes + size_of (e ∷ es)) × (c'.held ≡ c.held) × (c'.bytes ≡ c.bytes))
  unfolding collect store_window retain
  collect_first cp ring c e es first found =
      let size = size_of (e ∷ es) in
      let not_last : bytes_eq c.cfg.policy policy_last ≡ false = rw first first-ne-last in
      let made = make_room_first c.cfg.budget size c.held c.bytes in
      elim (Bool-cases (leb (c.bytes + size) c.cfg.budget)) [
        | inl fits ↦
            let le = leb→le _ _ fits in
            let small = le→ltb c.cfg.budget size (omega arith) in
            inl (
              le,
              rw (found, small, not_last, made, fits) refl,
              rw (found, small, not_last, made, fits) refl,
            )
        | inr full ↦
            let (same_held, same_bytes) =
              refused_unchanged cp e es (record c { pending = none }) not_last full in
            inr (leb→lt _ _ full, rw found same_held, rw found same_bytes)
      ]

  -- What becomes of a complete window of entries `es`: it is retained as the newest capture, with
  -- evictions only under the policy `last`, or it is refused for its bytes and counted so, and what was
  -- held stays.
  abbrev pub Retained : Capture F → List (Entry F) → Captures F → Captures F → Type 0
  Retained cp es c c' =
      (h : Capture F) × (k : ℕ) × (c'.held ≡ drop k c.held ++ h ∷ [])
      × ((c.cfg.policy ≡ policy_last) ⊎ (k ≡ 0))
      × (h.id ≡ cp.id)
      × (h.cause ≡ cp.cause)
      × (h.fire_seq ≡ cp.fire_seq)
      × (h.entries ≡ es)
      × (h.complete ≡ true)
      × (c'.refused ≡ c.refused)

  abbrev pub Refused : List (Entry F) → Captures F → Captures F → Type 0
  Refused es c c' =
      ((c.cfg.budget < size_of es)
        ⊎ ((c.cfg.policy ≢ policy_last) × (c.cfg.budget < held_bytes c.held + size_of es)))
      × (c'.held ≡ c.held)
      × (c'.refused ≡ bump (codes "budget") c.refused)

  filled-complete :
      (cp : Capture F) (e : Entry F) (es : List (Entry F)) (n : ℕ)
      → length (e ∷ es) ≡ n
      → (filled cp e es n).complete ≡ true
  filled-complete cp e es n h = (==_iff _ _).1 h

  pub store_window-outcome :
      (cp : Capture F) (es : List (Entry F)) (c : Captures F)
      → c.bytes ≡ held_bytes c.held
      → length es ≡ c.pre + c.post + 1
      → let c' = store_window cp es c in
        (c'.pending ≡ c.pending) × (Retained cp es c c' ⊎ Refused es c c')
  unfolding store_window retain
  store_window-outcome cp [] c exact n = absurd (ground arith)
  store_window-outcome cp (e ∷ es) c exact n =
      let size = size_of (e ∷ es) in
      let whole = filled-complete cp e es (c.pre + c.post + 1) n in
      elim (Bool-cases (ltb c.cfg.budget size)) [
        | inl over ↦ rw over (refl, inr (inl (ltb→lt _ _ over), refl, refl))
        | inr fine ↦
            let le = ltb→le _ _ fine in
            elim (Bool-cases (bytes_eq c.cfg.policy policy_last)) [
              | inl last ↦
                  let (k, made, least) = make_room_last c.cfg.budget size c.held c.bytes le exact in
                  rw (fine, last, made)
                    (
                      refl,
                      inl (
                        filled cp e es (c.pre + c.post + 1),
                        k,
                        refl,
                        inl ((bytes_eq_iff _ _).0 last),
                        refl,
                        refl,
                        refl,
                        refl,
                        whole,
                        refl,
                      ),
                    )
              | inr other ↦
                  let made = make_room_first c.cfg.budget size c.held c.bytes in
                  elim (Bool-cases (leb (c.bytes + size) c.cfg.budget)) [
                    | inl fits ↦
                        rw (fine, other, made, fits)
                          (
                            refl,
                            inl (
                              filled cp e es (c.pre + c.post + 1),
                              0,
                              refl,
                              inr refl,
                              refl,
                              refl,
                              refl,
                              refl,
                              whole,
                              refl,
                            ),
                          )
                    | inr full ↦
                        rw (fine, other, made, full)
                          (
                            refl,
                            inr (
                              inr (
                                λ same. no_both other ((bytes_eq_iff _ _).1 same),
                                omega (arith, leb→lt _ _ full, exact),
                              ),
                              refl,
                              refl,
                            ),
                          )
                  ]
            ]
      ]

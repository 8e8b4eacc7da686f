-- ===== src/Agent/Ring/Store.antt =====
-- A push: the ring stays well formed, and its contents are the last entries pushed.
use native.Mathlib.Nat.{mod-lt, zero-add}
use native.Mathlib.Numerals.{add-one}
use mathlib.Core.Path.{ap₂}
use mikroscope.Common.{
  ℕ, suc, ◌+◌, ◌-◌, ◌%◌, ◌≤◌, ◌<◌, List, [], ◌∷◌, ◌++◌, ◌≡◌, ◌≢◌, refl, sym, ◌∙◌, ap, arith, length,
  get_or, set, drop, take_last, ltb, if◌then◌else◌, get_or-set_self, get_or-set_ne, length-set,
  length-append, length-replicate, inl, inr, Bool-cases, drop-append, ltb→lt, ltb→le, lt→ltb,
  le→ltb,
}
use mikroscope.Agent.Ring.{Entry, Ring, zero_entry, read_run, new_ring, store}
use mikroscope.Agent.Ring.View.{
  WellFormed, front, contents, at, length-read_run, read_run_ext, read_run_snoc, front_room,
  index-ne-head, index-head, front_full, index_full, index_full-ne-head, index_full-head,
}

module _ {F : Type 0} where
  pub new_ring-WellFormed : (capacity : ℕ) → WellFormed (new_ring {F = F} capacity)
  unfolding new_ring
  new_ring-WellFormed capacity =
      ground (arith, length-replicate (if ltb capacity 1 then 1 else capacity) (zero_entry {F = F}))

  pub store-WellFormed : (e : Entry F) (r : Ring F) → WellFormed r → WellFormed (store e r)
  unfolding store
  store-WellFormed e r w =
      ground
        (arith, length-set r.buf r.head e, mod-lt (r.head + 1) {m = length r.buf} (omega arith))

  pub length-contents : (r : Ring F) → length (contents r) ≡ r.count
  unfolding contents
  length-contents r = length-read_run r.buf (front r) 0 r.count

  -- A run over the buffer after a write reads an entry elsewhere as before.
  at-set_ne :
      (b : List (Entry F)) (h f g k j : ℕ) (e : Entry F)
      → (f + k) % length b ≢ h
      → (f + k) % length b ≡ (g + j) % length b
      → at (set b h e) f k ≡ at b g j
  at-set_ne b h f g k j e ne eq =
      rw (length-set b h e, get_or-set_ne b h ((f + k) % length b) e zero_entry (λ q. ne (sym q)))
        (ap (λ i. get_or b i zero_entry) eq)

  at-set_self :
      (b : List (Entry F)) (h f k : ℕ) (e : Entry F)
      → h < length b
      → (f + k) % length b ≡ h
      → at (set b h e) f k ≡ e
  at-set_self b h f k e lt eq = rw (length-set b h e, eq) (get_or-set_self b h e zero_entry lt)

  run_room :
      (b : List (Entry F)) (h c : ℕ) (e : Entry F)
      → h < length b
      → c < length b
      → read_run (set b h e) (((h + 1) % length b + length b - (c + 1)) % length b) 0 (c + 1)
        ≡ read_run b ((h + length b - c) % length b) 0 c ++ e ∷ []
  run_room b h c e p q =
      let n = length b in
      let f = (h + n - c) % n in
      rw (front_room h c n p q, add-one c, read_run_snoc)
        (ap₂ (λ xs x. xs ++ x ∷ [])
          (read_run_ext (set b h e) b f f 0 0 c (λ k lt.
            at-set_ne b h f f (0 + k) (0 + k) e (rw zero-add (index-ne-head h c n k p q lt)) refl))
          (at-set_self b h f (0 + c) e p (rw zero-add (index-head h c n p q))))

  run_full :
      (b : List (Entry F)) (h n : ℕ) (e : Entry F)
      → h < length b
      → length b ≡ suc n
      → read_run (set b h e) ((h + 1) % length b) 0 (suc n) ≡ read_run b h 1 n ++ e ∷ []
  run_full b h n e p q =
      let m = length b in
      let f = (h + 1) % m in
      rw read_run_snoc (
        ap₂ (λ xs x. xs ++ x ∷ [])
          (read_run_ext (set b h e) b f h 0 1 n (λ k lt.
            let ix = index_full h m k p (omega arith) in
            let e1 : h + (k + 1) ≡ h + (1 + k) = omega arith in
            at-set_ne b h f h (0 + k) (1 + k) e
              (rw (zero-add, ix) (index_full-ne-head h m k p (omega arith)))
              (rw zero-add (ix ∙ ap (λ t. t % m) e1))))
          (at-set_self b h f (0 + n) e p (
            let e2 : h + (n + 1) ≡ h + m = omega arith in
            rw zero-add
              (index_full h m n p (omega arith) ∙ (ap (λ t. t % m) e2 ∙ index_full-head h m p)))))

  run_full_counted :
      (b : List (Entry F)) (h c n : ℕ) (e : Entry F)
      → h < length b
      → c ≡ length b
      → c ≡ suc n
      → read_run (set b h e) (((h + 1) % length b + length b - c) % length b) 0 c
        ≡ drop 1 (read_run b ((h + length b - c) % length b) 0 c) ++ e ∷ []
  unfolding read_run
  run_full_counted b h c n e p q s =
      let m = length b in
      let after : ((h + 1) % m + m - c) % m ≡ (h + 1) % m =
        rw q (front_full ((h + 1) % m) m (mod-lt (h + 1) (omega arith))) in
      let before : (h + m - c) % m ≡ h = rw q (front_full h m p) in
      rw (after, before, s) (run_full b h n e p (omega arith))

  contents-store_room :
      (e : Entry F) (r : Ring F)
      → WellFormed r
      → r.count < length r.buf
      → contents (store e r) ≡ contents r ++ e ∷ []
  unfolding contents store
  contents-store_room e r w room =
      rw (length-set r.buf r.head e, lt→ltb r.count (length r.buf) room)
        (run_room r.buf r.head r.count e w.placed room)

  contents-store_full :
      (e : Entry F) (r : Ring F)
      → WellFormed r
      → r.count ≡ length r.buf
      → contents (store e r) ≡ drop 1 (contents r) ++ e ∷ []
  unfolding contents store
  contents-store_full e r w full =
      rw (length-set r.buf r.head e, le→ltb r.count (length r.buf) (omega arith))
        (run_full_counted r.buf r.head r.count (r.count - 1) e w.placed full (omega arith))

  -- After a push the ring holds the last entries of what it held and the new one, as many as
  -- the buffer has room for, oldest first.
  pub contents-store :
      (e : Entry F) (r : Ring F)
      → WellFormed r
      → contents (store e r) ≡ take_last (length r.buf) (contents r ++ e ∷ [])
  contents-store e r w = elim (Bool-cases (ltb r.count (length r.buf))) [
    | inl room ↦
        let lt : r.count < length r.buf = ltb→lt _ _ room in
        let none_dropped : r.count + 1 - length r.buf ≡ 0 = omega arith in
        rw (surplus, none_dropped) (contents-store_room e r w lt)
    | inr full ↦
        let ge : length r.buf ≤ r.count = ltb→le _ _ full in
        let eq : r.count ≡ length r.buf = omega arith in
        let one_dropped : r.count + 1 - length r.buf ≡ 1 = omega arith in
        let some_held : 1 ≤ length (contents r) = rw length-contents (omega arith) in
        rw (surplus, one_dropped, drop-append 1 (contents r) (e ∷ []) some_held)
          (contents-store_full e r w eq)
  ]
    where
      surplus : length (contents r ++ e ∷ []) ≡ r.count + 1
      surplus = rw (length-append, length-contents)

  pub last-store : (e : Entry F) (r : Ring F) → (store e r).last ≡ e.seq
  unfolding store
  last-store e r = refl

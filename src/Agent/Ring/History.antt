-- ===== src/Agent/Ring/History.antt =====
-- The ring over a whole run: what it holds after any number of pushes.
use mikroscope.Common.{
  ℕ, ◌+◌, ◌-◌, ◌≤◌, ◌<◌, min, List, [], ◌∷◌, ◌++◌, append-nil, append_assoc, ◌≡◌, refl, ◌∙◌, arith,
  length, take_last, length-set, length-replicate, take_last-append, ltb, if◌then◌else◌, u64_mod,
  max,
}
use mikroscope.Agent.Ring.{Entry, Ring, zero_entry, new_ring, store, read_run}
use mikroscope.Agent.Ring.View.{WellFormed, contents}
use mikroscope.Agent.Ring.Store.{
  contents-store, last-store, length-contents, store-WellFormed, new_ring-WellFormed,
}
use mikroscope.Agent.Ring.Numbered.{Numbered, Consecutive, store-Consecutive}

length-new_ring :
    (F : Type 0) (capacity : ℕ) → length (new_ring {F = F} capacity).buf ≡ max 1 capacity
unfolding new_ring
length-new_ring F capacity =
    length-replicate (if ltb capacity 1 then 1 else capacity) (zero_entry {F = F}) ∙ ground arith

module _ {F : Type 0} where
  -- Pushes one after the other.
  abbrev pub store_all : List (Entry F) → Ring F → Ring F
  store_all [] r = r
  store_all (e ∷ es) r = store_all es (store e r)

  pub length-store : (e : Entry F) (r : Ring F) → length (store e r).buf ≡ length r.buf
  unfolding store
  length-store e r = length-set r.buf r.head e

  count-store :
      (e : Entry F) (r : Ring F)
      → r.count ≤ length r.buf
      → (store e r).count ≡ min (length r.buf) (r.count + 1)
  unfolding store
  count-store e r h = ground arith

  pub contents-store_all :
      (es : List (Entry F)) (r : Ring F)
      → WellFormed r
      → contents (store_all es r) ≡ take_last (length r.buf) (contents r ++ es)
  contents-store_all [] r w =
      let fits : length (contents r) - length r.buf ≡ 0 = rw length-contents (omega arith) in
      rw (append-nil, fits) refl
  contents-store_all (e ∷ es) r w =
      contents-store_all es (store e r) (store-WellFormed e r w)
      ∙ rw (length-store e r, contents-store e r w, take_last-append, append_assoc) refl

  contents-new_ring : (capacity : ℕ) → contents (new_ring {F = F} capacity) ≡ []
  unfolding contents new_ring read_run
  contents-new_ring capacity = refl

  -- A ring made for some capacity (at least one) holds, after any pushes, the newest entries
  -- pushed, as many as it was made for, oldest first.
  pub contents-history :
      (capacity : ℕ) (es : List (Entry F))
      → contents (store_all es (new_ring capacity)) ≡ take_last (max 1 capacity) es
  contents-history capacity es =
      contents-store_all es (new_ring capacity) (new_ring-WellFormed capacity)
      ∙ rw (contents-new_ring, length-new_ring) refl

  -- If the samples pushed are numbered from 1 and their numbers stay below 2 ^ 64 - 1, the ring
  -- is well formed, its last number is that of the last one pushed, it holds as many entries as it had
  -- and were pushed, up to its size, and they are the consecutive numbers that end there.
  pub store_all-Consecutive :
      (es : List (Entry F)) (r : Ring F)
      → WellFormed r
      → Consecutive r
      → Numbered (r.last + 1) es
      → r.last + length es + 1 < u64_mod
      → WellFormed (store_all es r)
        × Consecutive (store_all es r)
        × ((store_all es r).last ≡ r.last + length es)
        × ((store_all es r).count ≡ min (length r.buf) (r.count + length es))
  store_all-Consecutive [] r w c n b = (w, c, omega arith, omega (arith, w.sized))
  store_all-Consecutive (e ∷ es) r w c n b =
      let (w', c', last, count) =
        store_all-Consecutive es (store e r) (store-WellFormed e r w)
          (store-Consecutive e r w c n.0 (omega arith)) (rw (last-store e r, n.0) n.1)
          (omega (arith, last-store e r, n.0)) in
      (
        w',
        c',
        omega (arith, last, last-store e r, n.0),
        omega (arith, count, length-store e r, count-store e r, w.sized),
      )

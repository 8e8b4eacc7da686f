-- ===== src/Agent/Ring/Tests.antt =====
-- A ring of three entries that four samples were pushed to.
use mikroscope.Common.{
  ◌+◌, min, ℕ, List, [], ◌∷◌, map, ◌≡◌, refl, arith, pos, take_last, false, ◌⊎◌,
}
use mikroscope.Agent.Ring.{Entry, Ring, new_ring, store, oldest, since, tail}
use mikroscope.Agent.Ring.View.{WellFormed, contents}
use mikroscope.Agent.Ring.Store.{new_ring-WellFormed}
use mikroscope.Agent.Ring.Numbered.{Consecutive, new_ring-Consecutive}
use mikroscope.Agent.Ring.Read.{since-contents, tail-contents, oldest-contents, newer_than, is_gap}
use mikroscope.Agent.Ring.History.{store_all, contents-history, store_all-Consecutive}

abbrev entry : ℕ → Entry ℕ
entry n = record { seq = n; mono_ns = pos 0; dt_ns = pos 0; busy = []; line = n ∷ 10 ∷ [] }

abbrev four : List (Entry ℕ)
four = map entry (1 ∷ 2 ∷ 3 ∷ 4 ∷ [])

abbrev full : Ring ℕ
full = store_all four (new_ring 3)

last_three : since 0 0 full ≡ (map entry (2 ∷ 3 ∷ 4 ∷ []), false)
unfolding since new_ring store
last_three = refl

a_gap : since 0 2 full ≡ (map entry (2 ∷ 3 ∷ []), false)
unfolding since new_ring store
a_gap = refl

contents-history_example : contents (store_all four (new_ring 3)) ≡ take_last 3 four
contents-history_example = contents-history 3 four

full_held : WellFormed full × Consecutive full
unfolding new_ring
full_held =
    let held =
      store_all-Consecutive four (new_ring 3) (new_ring-WellFormed 3) (new_ring-Consecutive 3)
        (refl, (refl, (refl, (refl, tt)))) (omega arith) in
    (held.0, held.1)

store_all-Consecutive_example :
    WellFormed full × Consecutive full × (full.last ≡ 0 + 4) × (full.count ≡ min 3 (0 + 4))
unfolding new_ring
store_all-Consecutive_example =
    store_all-Consecutive four (new_ring 3) (new_ring-WellFormed 3) (new_ring-Consecutive 3)
      (refl, (refl, (refl, (refl, tt)))) (omega arith)

since-contents_example : since 2 1 full ≡ (newer_than 2 1 (contents full), is_gap 2 full)
since-contents_example = since-contents 2 1 full full_held.0 full_held.1 (omega arith)

tail-contents_example : tail 2 full ≡ take_last 2 (contents full)
tail-contents_example = tail-contents 2 full full_held.0

oldest-contents_example :
    ((contents full ≡ []) × (oldest full ≡ 0))
    ⊎ ((e : Entry ℕ) × (es : List (Entry ℕ)) × (contents full ≡ e ∷ es) × (oldest full ≡ e.seq))
oldest-contents_example = oldest-contents full full_held.1

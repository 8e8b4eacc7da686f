-- ===== src/Collector/Transport.antt =====
-- internal/transport/transport.go: `splitBody` and the size of a batch. Fetching is I/O.
use mikroscope.Common.{ℕ, List, [], ◌∷◌, Option, none, some, min}
use mikroscope.Agent.Server.{Line, gap_line, trigger_line, sample_line, comment_line}

pub record Gap : Type 0 where
  pub from : ℕ
  pub to : ℕ

-- A later gap line replaces an earlier one.
abbrev pub or_later : Gap → Option Gap → Option Gap
or_later g none = some g
or_later g (some h) = some h

unfoldable pub split_body : {F : Type 0} → List (Line F) → List (Line F) × Option Gap
split_body [] = ([], none)
split_body (gap_line from to ∷ ls) =
    let r = split_body ls in (r.0, or_later (record { from = from; to = to }) r.1)
split_body (comment_line ∷ ls) = split_body ls
split_body (trigger_line m ∷ ls) = let r = split_body ls in (trigger_line m ∷ r.0, r.1)
split_body (sample_line e ∷ ls) = let r = split_body ls in (sample_line e ∷ r.0, r.1)

-- The relay has a cap of its own.
unfoldable pub effective_batch : Option ℕ → ℕ → ℕ
effective_batch none want = want
effective_batch (some cap) want = min want cap

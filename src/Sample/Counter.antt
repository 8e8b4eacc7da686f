-- ===== src/Sample/Counter.antt =====
-- internal/sample/sample.go, `sub` and `isWrap32`: the difference of a monotonic counter.
-- The package's atomic `resetsSeen` is threaded as a state of one number.
use mikroscope.Common.{ℕ, ◌+◌, ◌-◌, Bool, ◌&&◌, ltb, leb, if◌then◌else◌, u64}

-- A computation that may count resets.
abbrev pub Counted : Type 0 → Type 0
Counted A = ℕ → A × ℕ

infixl 5 ◌>>=◌
abbrev pub ◌>>=◌ : {A B : Type 0} → Counted A → (A → Counted B) → Counted B
◌>>=◌ m f n = f (m n).0 (m n).1

abbrev pub pure : {A : Type 0} → A → Counted A
pure a n = (a, n)

-- 2 ^ 32, and the sixteenth of it on either side of the wrap.
abbrev pub range32 : ℕ
range32 = 4294967296

abbrev pub edge32 : ℕ
edge32 = 268435456

unfoldable pub is_wrap32 : ℕ → ℕ → Bool
is_wrap32 cur prev = ltb prev range32 && (leb (range32 - edge32) prev && ltb cur edge32)

unfoldable pub sub : ℕ → ℕ → Counted ℕ
unfolding is_wrap32
sub cur prev seen =
    if leb prev cur
    then (cur - prev, seen)
    else if is_wrap32 cur prev
    then (u64 (cur + (range32 - prev)), seen)
    else (cur, u64 (seen + 1))

-- ===== src/Ranges/Laws.antt =====
-- Which positions of a file a byte range selects, src/veloce/http/response.py.
use veloce.Prelude.{ℕ, ◌+◌, ◌≤◌, ◌<◌, ◌↔◌, Option, none, some, arith}
use veloce.Ranges.{Span, resolve_byte_range}

-- The position i of a file of that size is one that the range asks for, in the words of RFC 9110: from
-- the first to the last, both included, to the end of the file, or one of the last so many.
abbrev pub Selected : Span → ℕ → ℕ → Type 0
Selected (none, none) size i = ⊥
Selected (none, some suffix) size i = (i < size) × (size ≤ i + suffix)
Selected (some start, none) size i = (i < size) × (start ≤ i)
Selected (some start, some end) size i = (i < size) × (start ≤ i) × (i ≤ end)

abbrev pub IsIn : Option (ℕ × ℕ) → ℕ → Type 0
IsIn none i = ⊥
IsIn (some (start, end)) i = (start ≤ i) × (i ≤ end)

-- The positions between the resolved ends are exactly those that the range selects; so a range is
-- unsatisfiable where it selects none.
pub resolve_byte_range-Selected :
    (span : Span) (size i : ℕ) → IsIn (resolve_byte_range span size) i ↔ Selected span size i
unfolding resolve_byte_range
resolve_byte_range-Selected (none, none) size i = ground arith
resolve_byte_range-Selected (none, some suffix) size i = ground arith
resolve_byte_range-Selected (some start, none) size i = ground arith
resolve_byte_range-Selected (some start, some end) size i = ground arith

-- ===== src/Text/Strip.antt =====
-- `strip`, `lstrip`, `rstrip`, `partition` and `c in s` of Python's `str`.
use veloce.Prelude.{ℕ, Bool, true, false, ◌&&◌, ◌||◌, [], ◌∷◌, nat_eq, ◌==◌, leb, if◌then◌else◌}
use veloce.Text.{Text}

-- str.isspace of a code point
abbrev pub is_space : ℕ → Bool
is_space c =
    (leb 9 c && leb c 13)
    || ((leb 28 c && leb c 32)
        || (c == 133
            || (c == 160
                || (c == 5760
                    || ((leb 8192 c && leb c 8202)
                        || (c == 8232
                            || (c == 8233 || (c == 8239 || (c == 8287 || c == 12288)))))))))

unfoldable pub lstrip : Text → Text
lstrip [] = []
lstrip (c ∷ s) = let rest = lstrip s in if is_space c then rest else c ∷ s

-- A text whose stripped rest is empty goes with it, if it is a space.
abbrev pub cons_stripped : ℕ → Text → Text
cons_stripped c [] = if is_space c then [] else c ∷ []
cons_stripped c (d ∷ s) = c ∷ d ∷ s

unfoldable pub rstrip : Text → Text
rstrip [] = []
rstrip (c ∷ s) = cons_stripped c (rstrip s)

unfoldable pub strip : Text → Text
unfolding lstrip rstrip
strip s = rstrip (lstrip s)

-- c in s
unfoldable pub has_char : ℕ → Text → Bool
has_char c [] = false
has_char c (d ∷ s) = d == c || has_char c s

-- s.partition(c) without the middle: the head, and what stands behind the first `c`
unfoldable pub partition : ℕ → Text → Text × Text
partition sep [] = ([], [])
partition sep (c ∷ s) =
    let (head, rest) = partition sep s in if c == sep then ([], s) else (c ∷ head, rest)

-- s.startswith(prefix)
unfoldable pub starts_with : Text → Text → Bool
starts_with [] s = true
starts_with (p ∷ prefix) [] = false
starts_with (p ∷ prefix) (c ∷ s) = p == c && starts_with prefix s

abbrev pub cons_unless_end : ℕ → ℕ → Text → Text
cons_unless_end sep c [] = if c == sep then [] else c ∷ []
cons_unless_end sep c (d ∷ s) = c ∷ d ∷ s

-- s.rstrip(sep)
unfoldable pub rstrip_char : ℕ → Text → Text
rstrip_char sep [] = []
rstrip_char sep (c ∷ s) = cons_unless_end sep c (rstrip_char sep s)

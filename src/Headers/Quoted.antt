-- ===== src/Headers/Quoted.antt =====
-- `split_outside_quotes_checked` of src/veloce/_header_parsing.py and its helpers.
pub mod Front
use veloce.Prelude.{ℕ, Bool, true, false, not, ◌&&◌, List, [], ◌∷◌, nat_eq, ◌==◌, if◌then◌else◌}
use veloce.Text.{Text}
use veloce.Text.Split.{push}
use veloce.Text.Strip.{strip}

abbrev pub quote : ℕ
quote = 34

abbrev pub backslash : ℕ
backslash = 92

-- The parts from here on, and whether the text ends inside a quoted string.
abbrev pub Parts : Type 0
Parts = List Text × Bool

-- buf.append(c)
abbrev pub keep : ℕ → Parts → Parts
keep c (parts, open_quote) = (push c parts, open_quote)

-- parts.append("".join(buf))
abbrev pub cut : Parts → Parts
cut (parts, open_quote) = ([] ∷ parts, open_quote)

-- A character that no backslash hides; `k` is the walk of what follows.
abbrev pub plain : ℕ → Bool → ℕ → (Bool → Parts) → Parts
plain delimiter in_quotes c k =
    if c == quote
    then keep c (k (not in_quotes))
    else if c == delimiter && not in_quotes
    then cut (k in_quotes)
    else keep c (k in_quotes)

-- The loop; `i + 1 < n` is that another character follows.
unfoldable pub walk : ℕ → Bool → Text → Parts
walk delimiter in_quotes [] = ([] ∷ [], in_quotes)
walk delimiter in_quotes (c ∷ []) = plain delimiter in_quotes c (λ q. ([] ∷ [], q))
walk delimiter in_quotes (c ∷ d ∷ s) =
    let hidden = keep c (keep d (walk delimiter in_quotes s)) in
    let seen = plain delimiter in_quotes c (λ q. walk delimiter q (d ∷ s)) in
    if in_quotes && c == backslash then hidden else seen

unfoldable pub split_outside_quotes_checked : Text → ℕ → Parts
unfolding walk
split_outside_quotes_checked value delimiter = walk delimiter false value

unfoldable pub split_outside_quotes : Text → ℕ → List Text
unfolding split_outside_quotes_checked
split_outside_quotes value delimiter = (split_outside_quotes_checked value delimiter).0

-- value.strip().strip('"'): every double quote at either end
unfoldable pub lstrip_quotes : Text → Text
lstrip_quotes [] = []
lstrip_quotes (c ∷ s) = let rest = lstrip_quotes s in if c == quote then rest else c ∷ s

abbrev cons_unquoted : ℕ → Text → Text
cons_unquoted c [] = if c == quote then [] else c ∷ []
cons_unquoted c (d ∷ s) = c ∷ d ∷ s

unfoldable pub rstrip_quotes : Text → Text
rstrip_quotes [] = []
rstrip_quotes (c ∷ s) = cons_unquoted c (rstrip_quotes s)

unfoldable pub unquote_value : Text → Text
unfolding lstrip_quotes rstrip_quotes strip
unquote_value value = rstrip_quotes (lstrip_quotes (strip value))

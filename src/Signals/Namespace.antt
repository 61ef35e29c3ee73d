-- ===== src/Signals/Namespace.antt =====
-- `Namespace` of src/veloce/signals.py: a dict from names to signals. A signal is its place in the
-- list of all that were made, as two calls answer the same object or not.
use veloce.Prelude.{ℕ, String, Option, none, some, List, [], ◌∷◌, ◌++◌, length, string_eq}
use veloce.Prelude.Dict.{Dict, get, put}

-- The `name` and `doc` of a signal.
pub record Label : Type 0 where
  pub name : String
  pub doc : Option String

pub record Namespace : Type 0 where
  pub signals : Dict String ℕ
  pub made : List Label

abbrev or_make : Option ℕ → String → Option String → Namespace → ℕ × Namespace
or_make (some existing) name doc n = (existing, n)
or_make none name doc n = (
  length n.made,
  record {
    signals = put name (length n.made) n.signals;
    made = n.made ++ (record { name = name; doc = doc } ∷ []);
  },
)

unfoldable pub signal : String → Option String → Namespace → ℕ × Namespace
signal name doc n = or_make (get name n.signals) name doc n

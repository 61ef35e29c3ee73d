-- ===== src/Sessions/Session.antt =====
-- `Session` of src/veloce/sessions.py: a dict that knows when it has changed.
pub mod Laws
use veloce.Prelude.{
  is_empty, Bool, true, false, ◌||◌, String, string_eq, Option, none, some, List, [], ◌∷◌,
  if◌then◌else◌, not,
}
use veloce.Prelude.Dict.{Dict, get, has, put, pop}

pub record Session (V : Type 0) : Type 0 where
  pub items : Dict String V
  pub new : Bool
  pub modified : Bool
  pub regenerate : Bool
  pub accessed : Bool

-- The positional argument of `update`: a dict, or an iterable of pairs.
pub data Argument (V : Type 0) : Type 0 where
  missing : Argument V
  mapping : Dict String V → Argument V
  pairs : List (String × V) → Argument V

module _ {V : Type 0} where
  -- `__init__`
  unfoldable pub init : Dict String V → Session V
  init items = record {
    items = items;
    new = false;
    modified = false;
    regenerate = false;
    accessed = false;
  }

  abbrev pub changed : Session V → Dict String V → Session V
  changed s items = record s { items = items; modified = true }

  unfoldable pub regenerate_id : Session V → Session V
  regenerate_id s = record s { regenerate = true; modified = true }

  unfoldable pub clear : Session V → Session V
  clear s = changed s []

  -- `pop`; an absent key gives the default or raises KeyError, and changes nothing.
  unfoldable pub pop_key : String → Session V → Option V × Session V
  pop_key key s = (get key s.items, if has key s.items then changed s (pop key s.items) else s)

  -- The last entry, and the others.
  unfoldable pub split_last : String × V → Dict String V → (String × V) × Dict String V
  split_last e [] = (e, [])
  split_last e (f ∷ d) = let (l, rest) = split_last f d in (l, e ∷ rest)

  abbrev pub pop_last : Session V → Dict String V → Option (String × V) × Session V
  pop_last s [] = (none, s)
  pop_last s (e ∷ d) = (some (split_last e d).0, changed s (split_last e d).1)

  -- `none` is KeyError.
  unfoldable pub popitem : Session V → Option (String × V) × Session V
  unfolding split_last
  popitem s = pop_last s s.items

  unfoldable pub setdefault : String → V → Session V → Session V
  setdefault key default s = if has key s.items then s else changed s (put key default s.items)

  -- for k, v in items: d[k] = v
  unfoldable pub put_all : List (String × V) → Dict String V → Dict String V
  put_all [] d = d
  put_all ((k, v) ∷ more) d = put_all more (put k v d)

  abbrev pub entries_of : Argument V → List (String × V)
  entries_of missing = []
  entries_of (mapping d) = d
  entries_of (pairs l) = l

  -- Whether `update` counts as a change: by the keywords, or by the positional argument.
  abbrev pub counts : Argument V → Dict String V → Bool
  counts missing kwargs = not (is_empty kwargs)
  counts (mapping d) kwargs = not (is_empty kwargs) || not (is_empty d)
  counts (pairs l) kwargs = true

  unfoldable pub update : Argument V → Dict String V → Session V → Session V
  unfolding put_all
  update argument kwargs s = record s {
    items = put_all kwargs (put_all (entries_of argument) s.items);
    modified = counts argument kwargs || s.modified;
  }

  -- `__setitem__`
  unfoldable pub set_item : String → V → Session V → Session V
  set_item key value s = changed s (put key value s.items)

  -- `__delitem__`; an absent key raises KeyError.
  unfoldable pub del_item : String → Session V → Session V
  del_item key s = if has key s.items then changed s (pop key s.items) else s

  -- `__ior__`
  unfoldable pub merge : List (String × V) → Session V → Session V
  unfolding put_all
  merge other s = changed s (put_all other s.items)

  module _ (truth : V → Bool) (of_bool : Bool → V) where
    abbrev truth_of : Option V → Bool
    truth_of none = false
    truth_of (some v) = truth v

    unfoldable pub permanent : Session V → Bool
    permanent s = truth_of (get "_permanent" s.items)

    unfoldable pub set_permanent : Bool → Session V → Session V
    unfolding set_item
    set_permanent value s = set_item "_permanent" (of_bool value) s

-- A call on the session.
pub data Call (V : Type 0) : Type 0 where
  regenerate_call : Call V
  clear_call : Call V
  pop_call : String → Call V
  popitem_call : Call V
  setdefault_call : String → V → Call V
  update_call : Argument V → Dict String V → Call V
  set_call : String → V → Call V
  del_call : String → Call V
  merge_call : List (String × V) → Call V

module _ {V : Type 0} where
  unfoldable pub step : Call V → Session V → Session V
  unfolding regenerate_id clear pop_key popitem setdefault update set_item del_item merge
  step regenerate_call s = regenerate_id s
  step clear_call s = clear s
  step (pop_call key) s = (pop_key key s).1
  step popitem_call s = (popitem s).1
  step (setdefault_call key default) s = setdefault key default s
  step (update_call argument kwargs) s = update argument kwargs s
  step (set_call key value) s = set_item key value s
  step (del_call key) s = del_item key s
  step (merge_call other) s = merge other s

  unfoldable pub run : List (Call V) → Session V → Session V
  unfolding step
  run [] s = s
  run (call ∷ later) s = run later (step call s)

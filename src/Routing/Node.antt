-- ===== src/Routing/Node.antt =====
-- The radix tree: `RadixNode` of src/veloce/routing/_node.py and `_insert_path_into_tree` of
-- src/veloce/routing/router.py. A child's segment, its parameter name and its converter stand on
-- the edge to it. The key of a converter stands for its type and its constraint text, by which
-- `_param_index` tells two parameters of one name apart; the index holds exactly the parameter
-- children, so it is read off them.
use veloce.Prelude.{
  ℕ, ◌≡◌, refl, Bool, false, ◌&&◌, Option, none, some, [], leb, if◌then◌else◌, ◌==◌, arith,
}
use veloce.Prelude.Int.{ℤ}
use veloce.Prelude.Dict.{Dict}
use veloce.Text.{Text, text_eq, text_beq_iff}

-- What a converter makes of a segment: its text, a number, or some other object.
pub data Value : Type 0 where
  text : Text → Value
  number : ℤ → Value
  object : ℕ → Value

-- `Converter` of src/veloce/routing/converters.py: `match` is its method, `none` for `(False, None)`.
pub record Converter : Type 0 where
  pub key : Text
  pub greedy : Bool
  pub specificity : ℕ
  pub match : Text → Option Value

-- What the tree needs of `RouteInfo` of src/veloce/routing/route_info.py.
pub record RouteInfo : Type 0 where
  pub name : Text
  pub handler : ℕ

abbrev pub Handlers : Type 0
Handlers = Dict Text RouteInfo

-- `param_name` and `converter` of a parameter child
pub record Param : Type 0 where
  pub name : Text
  pub converter : Converter

pub record Flags : Type 0 where
  pub trailing_slash : Bool
  pub unslashed_variant : Bool
  pub tolerant_slash : Bool

mutual
  pub data Node : Type 0 where
    node : Handlers → Flags → Statics → Params → Wildcard → Node

  pub data Statics : Type 0 where
    no_statics : Statics
    static : Text → Node → Statics → Statics

  pub data Params : Type 0 where
    no_params : Params
    param : Param → Node → Params → Params

  pub data Wildcard : Type 0 where
    no_wildcard : Wildcard
    wildcard : Node → Wildcard

abbrev pub no_flags : Flags
no_flags = record { trailing_slash = false; unslashed_variant = false; tolerant_slash = false }

-- RadixNode(segment)
abbrev pub new_node : Node
new_node = node [] no_flags no_statics no_params no_wildcard

abbrev pub handlers : Node → Handlers
handlers (node hs fs ss ps w) = hs

abbrev pub flags : Node → Flags
flags (node hs fs ss ps w) = fs

abbrev pub statics : Node → Statics
statics (node hs fs ss ps w) = ss

abbrev pub params : Node → Params
params (node hs fs ss ps w) = ps

abbrev pub wildcard_child : Node → Wildcard
wildcard_child (node hs fs ss ps w) = w

-- node.static_children.get(seg)
unfoldable pub get_static : Text → Statics → Option Node
get_static seg no_statics = none
get_static seg (static s n rest) = if s == seg then some n else get_static seg rest

-- node.static_children[seg] = n
unfoldable pub put_static : Text → Node → Statics → Statics
put_static seg n no_statics = static seg n no_statics
put_static seg n (static s m rest) =
    if s == seg then static s n rest else static s m (put_static seg n rest)

abbrev pub same_param : Param → Param → Bool
same_param p q = p.name == q.name && p.converter.key == q.converter.key

-- node._param_index.get(key)
unfoldable pub get_param : Param → Params → Option Node
get_param p no_params = none
get_param p (param q n rest) = if same_param q p then some n else get_param p rest

-- the child of that key with a new node
unfoldable pub set_param : Param → Node → Params → Params
set_param p n no_params = no_params
set_param p n (param q m rest) =
    if same_param q p then param q n rest else param q m (set_param p n rest)

unfoldable pub append_param : Param → Node → Params → Params
append_param p n no_params = param p n no_params
append_param p n (param q m rest) = param q m (append_param p n rest)

-- `sort(key=_converter_sort_key)`, which is stable
unfoldable pub place_param : Param → Node → Params → Params
place_param p n no_params = param p n no_params
place_param p n (param q m rest) =
    if leb p.converter.specificity q.converter.specificity
    then param p n (param q m rest)
    else param q m (place_param p n rest)

unfoldable pub sort_params : Params → Params
unfolding place_param
sort_params no_params = no_params
sort_params (param p n rest) = place_param p n (sort_params rest)

pub get-put_static :
    (k j : Text) (n : Node) (ss : Statics)
    → get_static j (put_static k n ss) ≡ (if k == j then some n else get_static j ss)
unfolding get_static put_static
get-put_static k j n no_statics = refl
get-put_static k j n (static s m rest) =
    ground (arith, text_beq_iff k j, text_beq_iff s k, text_beq_iff s j, get-put_static k j n rest)

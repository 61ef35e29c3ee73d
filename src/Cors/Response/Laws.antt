-- ===== src/Cors/Response/Laws.antt =====
-- Lemmas on the headers of a response: what `header_pop` and `add_vary` leave alone.
use veloce.Prelude.{
  some_injective, ◌≡◌, refl, ap, sym, ◌∙◌, false, Option, none, some, List, [], ◌∷◌, ◌==◌,
  if◌then◌else◌, Bool-cases, inl, inr,
}
use veloce.Prelude.Dict.{get, put, pop}
use veloce.Prelude.Dict.Laws.{get-put, get-pop}
use veloce.Text.{Text, text_eq, text_beq, text_beq_iff, text_beq_refl, lower}
use veloce.Cors.Response.{
  Fields, folded_key, header_key, key_or, header_pop, pop_at, vary, vary_at, add_vary,
}

folded_key-lower :
    (lowered key : Text) (headers : Fields)
    → folded_key lowered headers ≡ some key
    → lower key ≡ lowered
unfolding folded_key
folded_key-lower lowered key [] = λ h. cc
folded_key-lower lowered key ((k, v) ∷ headers) = elim (Bool-cases (lower k == lowered)) [
  | inl t ↦
      rw t (λ h. ap lower (sym (some_injective k key h)) ∙ (text_beq_iff (lower k) lowered).0 t)
  | inr f ↦ rw f (λ h. folded_key-lower lowered key headers h)
]

key_or-lower :
    (name key : Text) (value other : Option Text)
    → (other ≡ some key → lower key ≡ lower name)
    → key_or name value other ≡ some key
    → lower key ≡ lower name
key_or-lower name key none other h e = h e
key_or-lower name key (some v) other h e = ap lower (sym (some_injective name key e))

-- The stored key is the name, but for its case.
pub header_key-lower :
    (headers : Fields) (name key : Text)
    → header_key headers name ≡ some key
    → lower key ≡ lower name
unfolding header_key
header_key-lower headers name key h =
    key_or-lower name key (get name headers) (folded_key (lower name) headers)
      (folded_key-lower (lower name) key headers) h

-- Two names that differ in more than case.
abbrev pub Differs : Text → Text → Type 0
Differs name other = text_beq (lower name) (lower other) ≡ false

Differs-beq : (key other : Text) → Differs key other → text_beq key other ≡ false
Differs-beq key other h = elim (Bool-cases (text_beq key other)) [
  | inl t ↦ cc (h, text_beq_refl (lower other), (text_beq_iff key other).0 t)
  | inr f ↦ f
]

get-pop_at :
    (headers : Fields) (name other : Text) (o : Option Text)
    → Differs name other
    → ((key : Text) → o ≡ some key → lower key ≡ lower name)
    → get other (pop_at headers o).1 ≡ get other headers
get-pop_at headers name other none d h = refl
get-pop_at headers name other (some key) d h =
    get-pop key other headers
    ∙ ap (λ b. if b then none else get other headers)
        (Differs-beq key other (ap (λ s. text_beq s (lower other)) (h key refl) ∙ d))

-- Removing one header keeps the others.
pub get-header_pop :
    (headers : Fields) (name other : Text)
    → Differs name other
    → get other (header_pop headers name).1 ≡ get other headers
unfolding header_pop
get-header_pop headers name other d =
    get-pop_at headers name other (header_key headers name) d
      (λ key e. header_key-lower headers name key e)

pub get-put_other :
    (headers : Fields) (name value other : Text)
    → Differs name other
    → get other (put name value headers) ≡ get other headers
get-put_other headers name value other d =
    get-put name other value headers
    ∙ ap (λ b. if b then some value else get other headers) (Differs-beq name other d)

pub get-put_same :
    (headers : Fields) (name value : Text) → get name (put name value headers) ≡ some value
get-put_same headers name value =
    get-put name name value headers
    ∙ ap (λ b. if b then some value else get name headers) (text_beq_refl name)

get-vary_at :
    (headers : Fields) (names : List Text) (other : Text) (o : Option Text)
    → Differs vary other
    → ((key : Text) → o ≡ some key → lower key ≡ lower vary)
    → get other (vary_at headers names o) ≡ get other headers
get-vary_at headers names other (some key) d h =
    get-put_other (pop key headers) vary _ other d ∙ get-pop_at headers vary other (some key) d h
get-vary_at headers [] other none d h = get-put_other headers vary _ other d
get-vary_at headers (name ∷ []) other none d h = get-put_other headers vary _ other d
get-vary_at headers (name ∷ name2 ∷ names) other none d h = get-put_other headers vary _ other d

-- Merging into `Vary` keeps the other headers.
pub get-add_vary :
    (names : List Text) (headers : Fields) (other : Text)
    → Differs vary other
    → get other (add_vary names headers) ≡ get other headers
unfolding add_vary
get-add_vary names headers other d =
    get-vary_at headers names other (header_key headers vary) d
      (λ key e. header_key-lower headers vary key e)

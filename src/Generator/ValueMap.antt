-- ===== src/Generator/ValueMap.antt =====
-- The hash VALUE_MAP that generate_enum writes, read as Ruby reads it.
use sparsam.Base.{
  ℕ, zero, suc, ◌<◌, ◌==◌, ℤ, if◌then◌else◌, ◌≡◌, refl, ap, ◌∙◌, false, Text, txt, List, [], ◌∷◌,
  ◌++◌, map, append_assoc, All, length, Option, none, some, arith, decimal, read_ℤ, read_ℕ,
  is_digit, read_ℤ-decimal,
}
use sparsam.Parse.Enum.{EnumValue}
use sparsam.Generator.Naming.{islower, toupper, capitalize}
use sparsam.Generator.Enums.{value_item, more_items, items}

-- `expected`, and what follows it.
pub expect : Text → Text → Option Text
expect [] s = some s
expect (c ∷ e) [] = none
expect (c ∷ e) (d ∷ s) = if c == d then expect e s else none

-- The text up to a closing quote, for names in which no escape stands.
pub read_name : Text → Option (Text × Text)
read_name [] = none
read_name (c ∷ s) =
    let rest = read_name s in
    if c == b'"' then some ([], s) else elim rest [ none ↦ none | some (n, t) ↦ some (c ∷ n, t) ]

infixl 5 ◌>>=◌
abbrev ◌>>=◌ : {A B : Type 0} → Option A → (A → Option B) → Option B
none >>= k = none
some a >>= k = k a

-- value => "name"
pub read_item : Text → Option ((ℤ × Text) × Text)
read_item s =
    read_ℤ s >>= λ v. expect (txt " => \"") v.1 >>= λ t. read_name t >>= λ n. some ((v.0, n.0), n.1)

-- Items behind a comma each, up to the closing brace, on fuel: one round for each item and one more.
pub read_more : ℕ → Text → Option (List (ℤ × Text) × Text)
read_more zero s = none
read_more (suc f) s = elim (expect (txt "}") s) [
  | some t ↦ some ([], t)
  | none ↦ expect (txt ", ") s >>= λ t.
      read_item t >>= λ i. read_more f i.1 >>= λ is_. some (i.0 ∷ is_.0, is_.1)
]

-- The items of a hash, up to its closing brace.
pub read_items : ℕ → Text → Option (List (ℤ × Text) × Text)
read_items f s = elim (read_item s) [
  | some i ↦ read_more f i.1 >>= λ is_. some (i.0 ∷ is_.0, is_.1)
  | none ↦ expect (txt "}") s >>= λ t. some ([], t)
]

-- A name without a quote.
abbrev pub IsQuotable : Text → Type 0
IsQuotable n = All (λ c. (c == b'"') ≡ false) n

abbrev pub entry : EnumValue → ℤ × Text
entry c = (c.value, capitalize c.name)

read_name-lem : (n t : Text) → IsQuotable n → read_name (n ++ b'"' ∷ t) ≡ some (n, t)
unfolding read_name
read_name-lem [] t h = refl
read_name-lem (c ∷ n) t h = rw (h.0, read_name-lem n t h.1) refl

toupper-ne-quote : (c : ℕ) → (c == b'"') ≡ false → (toupper c == b'"') ≡ false
unfolding toupper islower
toupper-ne-quote c h = ground arith

capitalize-IsQuotable : (n : Text) → IsQuotable n → IsQuotable (capitalize n)
unfolding capitalize
capitalize-IsQuotable [] h = tt
capitalize-IsQuotable (c ∷ n) h = (toupper-ne-quote c h.0, h.1)

value_item-append :
    (c : EnumValue) (t : Text)
    → value_item c ++ t ≡ decimal c.value ++ (txt " => \"" ++ (capitalize c.name ++ b'"' ∷ t))
unfolding value_item
value_item-append c t = simp append_assoc

read_item-parts :
    (k : ℤ) (n t : Text)
    → IsQuotable n
    → read_item (decimal k ++ (txt " => \"" ++ (n ++ b'"' ∷ t))) ≡ some ((k, n), t)
unfolding read_item expect is_digit
read_item-parts k n t h =
    rw (read_ℤ-decimal k (txt " => \"" ++ (n ++ b'"' ∷ t)) refl) (rw (read_name-lem n t h) refl)

read_item-lem :
    (c : EnumValue) (t : Text)
    → IsQuotable c.name
    → read_item (value_item c ++ t) ≡ some (entry c, t)
read_item-lem c t h =
    ap read_item (value_item-append c t)
    ∙ read_item-parts c.value (capitalize c.name) t (capitalize-IsQuotable c.name h)

read_more-lem :
    (f : ℕ) (cs : List EnumValue) (rest : Text)
    → length cs < f
    → All (λ c. IsQuotable c.name) cs
    → read_more f (more_items value_item cs ++ b'}' ∷ rest) ≡ some (map entry cs, rest)
unfolding read_more more_items expect
read_more-lem zero cs rest h q = absurd (omega arith)
read_more-lem (suc f) [] rest h q = refl
read_more-lem (suc f) (c ∷ cs) rest h q =
    rw (append_assoc, read_item-lem c (more_items value_item cs ++ b'}' ∷ rest) q.0)
      (rw (read_more-lem f cs rest (omega arith) q.1) refl)

read_items-some :
    (f : ℕ) (s t u : Text) (i : ℤ × Text) (is_ : List (ℤ × Text))
    → read_item s ≡ some (i, t)
    → read_more f t ≡ some (is_, u)
    → read_items f s ≡ some (i ∷ is_, u)
unfolding read_items
read_items-some f s t u i is_ e e' = rw (e, read_items) (rw e' refl)

-- Ruby reads the text that generate_enum writes for VALUE_MAP up to its closing brace, as the value
-- of each constant with its name, in the order of the constants, where no name has a quote in it.
pub read_items-value_map :
    (cs : List EnumValue) (rest : Text)
    → All (λ c. IsQuotable c.name) cs
    → read_items (suc (length cs)) (items value_item cs ++ b'}' ∷ rest) ≡ some (map entry cs, rest)
unfolding read_items items read_item is_digit expect read_ℤ read_ℕ
read_items-value_map [] rest q = refl
read_items-value_map (c ∷ cs) rest q =
    read_items-some (suc (suc (length cs)))
      (value_item c ++ more_items value_item cs ++ b'}' ∷ rest) _ _ _ _
      (ap read_item (append_assoc (value_item c) (more_items value_item cs) (b'}' ∷ rest))
        ∙ read_item-lem c (more_items value_item cs ++ b'}' ∷ rest) q.0)
      (read_more-lem _ cs rest (omega arith) q.1)

-- ===== src/Databricks/Quoting.antt =====
-- quoteDatabricksIdent of databricks/databricks_binding.go, and what a reader of SQL makes of it.
use bindings.Common.{
  ap, ◌∙◌, Bool-cases, inl, inr, refl, false, not, ◌=?◌, none, ◌≡◌, ◌++◌, some, true, Option,
  double_all, String, Bool,
}
use text.Mathlib.TextLemmas.{cons-append, nil-append, append_assoc}
use Prim.Native.Char.{Char, code}

unfoldable pub quote_ident : String → String
quote_ident name = "`" ++ (double_all 96 name ++ "`")

abbrev is_tick : Char → Bool
is_tick c = code c =? 96

abbrev prepend : Char → Option (String × String) → Option (String × String)
prepend c none = none
prepend c (some (name, rest)) = some (String.◌∷◌ c name, rest)

-- A reader of a quoted identifier after its first backtick: two backticks are one in the name, and
-- a single one ends it. `after_tick` says that a backtick was read whose meaning is still open.
unfoldable read_name : (after_tick : Bool) → String → Option (String × String)
read_name false String.[] = none
read_name true String.[] = some ("", "")
read_name false (String.◌∷◌ c s) = elim (is_tick c) [
  | true ↦ read_name true s
  | false ↦ prepend c (read_name false s)
]
read_name true (String.◌∷◌ c s) = elim (is_tick c) [
  | true ↦ prepend c (read_name false s)
  | false ↦ some ("", String.◌∷◌ c s)
]

-- What does not begin with a backtick.
abbrev pub starts_plain : String → Bool
starts_plain String.[] = true
starts_plain (String.◌∷◌ c s) = not (is_tick c)

-- A quoted identifier at the front of a text, and the text after it.
unfoldable pub read_ident : String → Option (String × String)
unfolding read_name
read_ident String.[] = none
read_ident (String.◌∷◌ c s) = elim (is_tick c) [ true ↦ read_name false s | false ↦ none ]

abbrev tick : Char
tick = "`"

-- The steps of the reader.
read-open :
    (c : Char) (s : String) → is_tick c ≡ true → read_name false (String.◌∷◌ c s) ≡ read_name true s
unfolding read_name
read-open c s tick = rw (read_name, tick) refl

read-plain :
    (c : Char) (s : String)
    → is_tick c ≡ false
    → read_name false (String.◌∷◌ c s) ≡ prepend c (read_name false s)
unfolding read_name
read-plain c s other = rw (read_name, other) refl

read-double :
    (c : Char) (s : String)
    → is_tick c ≡ true
    → read_name true (String.◌∷◌ c s) ≡ prepend c (read_name false s)
unfolding read_name
read-double c s tick = rw (read_name, tick) refl

read_name-end : (rest : String) → starts_plain rest ≡ true → read_name true rest ≡ some ("", rest)
unfolding read_name
read_name-end String.[] plain = refl
read_name-end (String.◌∷◌ c s) plain = elim (Bool-cases (is_tick c)) [
  | inl tick ↦ cc
  | inr other ↦ rw (read_name, other) refl
]

tick-append : (rest : String) → "`" ++ rest ≡ String.◌∷◌ tick rest
tick-append rest = cons-append tick "" rest ∙ ap (String.◌∷◌ tick) (nil-append rest)

read_name-double_all :
    (name rest : String)
    → starts_plain rest ≡ true
    → read_name false (double_all 96 name ++ ("`" ++ rest)) ≡ some (name, rest)
unfolding double_all
read_name-double_all String.[] rest plain =
    rw (nil-append ("`" ++ rest), tick-append rest, read-open tick rest refl)
      (read_name-end rest plain)
read_name-double_all (String.◌∷◌ c s) rest plain = elim (Bool-cases (is_tick c)) [
  | inl e ↦
      let more = String.◌∷◌ c (double_all 96 s) in
      rw
        (
          e,
          cons-append c more ("`" ++ rest),
          cons-append c (double_all 96 s) ("`" ++ rest),
          read-open c (String.◌∷◌ c (double_all 96 s ++ ("`" ++ rest))) e,
          read-double c (double_all 96 s ++ ("`" ++ rest)) e,
          read_name-double_all s rest plain,
        )
        refl
  | inr e ↦
      rw
        (
          e,
          cons-append c (double_all 96 s) ("`" ++ rest),
          read-plain c (double_all 96 s ++ ("`" ++ rest)) e,
          read_name-double_all s rest plain,
        )
        refl
]

-- A quoted identifier in a statement is read back as the name that was quoted, with the text after
-- it left as it is: no name, whatever backticks it holds, ends its identifier early. What follows
-- must not begin with a backtick.
pub read_ident-quote_ident :
    (name rest : String)
    → starts_plain rest ≡ true
    → read_ident (quote_ident name ++ rest) ≡ some (name, rest)
unfolding quote_ident read_ident
read_ident-quote_ident name rest plain =
    rw
      (
        tick-append (double_all 96 name ++ "`"),
        cons-append tick (double_all 96 name ++ "`") rest,
        append_assoc (double_all 96 name) "`" rest,
      )
      (read_name-double_all name rest plain)

-- ===== src/Common/Text.antt =====
-- What the Go `strings` package does with a text, by recursion on its characters.
use Prim.Native.Nat.{ℕ, zero, suc, Ordering}
use Prim.Native.Char.{Char, code}
use Prim.Native.String.{String, compare}
use mathlib.Core.Bool.{Bool, true, false, ◌&&◌, ◌||◌}
use mathlib.Core.List.{List, [], ◌∷◌}
use mathlib.Core.Option.{Option, none, some}
use text.Mathlib.Text.{◌==◌ as str_eq}
use mongodb_operator.Common.Tests.{leb, ◌==◌, if◌then◌else◌}

-- The first piece gets one more character in front.
abbrev pub cons_head : Char → List String → List String
cons_head c [] = (String.◌∷◌ c String.[]) ∷ []
cons_head c (p ∷ ps) = String.◌∷◌ c p ∷ ps

-- `strings.Split(s, sep)` for a separator of one byte.
unfoldable pub split : ℕ → String → List String
split sep String.[] = String.[] ∷ []
split sep (String.◌∷◌ c s) =
    let rest = split sep s in if code c == sep then String.[] ∷ rest else cons_head c rest

-- `strings.SplitN(s, sep, cuts + 1)`: at most `cuts` separators are read.
unfoldable pub split_n : ℕ → ℕ → String → List String
split_n zero sep s = s ∷ []
split_n (suc cuts) sep String.[] = String.[] ∷ []
split_n (suc cuts) sep (String.◌∷◌ c s) =
    let piece = split_n cuts sep s in
    let rest = split_n (suc cuts) sep s in
    if code c == sep then String.[] ∷ piece else cons_head c rest

-- `len(s) == 0`, also written `s == ""`.
abbrev pub is_empty : String → Bool
is_empty String.[] = true
is_empty (String.◌∷◌ _ _) = false

-- `unicode.IsSpace`: the spaces of Latin-1, and the other code points with the property.
unfoldable pub is_space : Char → Bool
is_space c =
    let n = code c in
    (leb 9 n && leb n 13)
    || (n == 32
        || (n == 133
            || (n == 160
                || (n == 5760
                    || ((leb 8192 n && leb n 8202)
                        || (n == 8232
                            || (n == 8233 || (n == 8239 || (n == 8287 || n == 12288)))))))))

-- `strings.TrimSpace(s) == ""`.
unfoldable pub is_blank : String → Bool
unfolding is_space
is_blank String.[] = true
is_blank (String.◌∷◌ c s) = is_space c && is_blank s

-- `strings.ContainsAny`: one of the bytes occurs.
unfoldable pub has_byte : ℕ → String → Bool
has_byte b String.[] = false
has_byte b (String.◌∷◌ c s) = code c == b || has_byte b s

-- A read of a Go map with text keys, kept as an association list.
unfoldable pub lookup {ℓ} : {V : Type ℓ} → String → List (String × V) → Option V
lookup k [] = none
lookup k ((j, v) ∷ m) = if str_eq j k then some v else lookup k m

-- `strings.HasPrefix(s, prefix)`
unfoldable pub has_prefix : String → String → Bool
has_prefix String.[] s = true
has_prefix (String.◌∷◌ c p) String.[] = false
has_prefix (String.◌∷◌ c p) (String.◌∷◌ d s) = code c == code d && has_prefix p s

-- `strings.Contains(s, sub)`
unfoldable pub contains : String → String → Bool
unfolding has_prefix
contains String.[] sub = has_prefix sub String.[]
contains (String.◌∷◌ c s) sub = has_prefix sub (String.◌∷◌ c s) || contains s sub

abbrev text_leb : String → String → Bool
text_leb s t = elim (compare s t) [ Ordering.gt ↦ false | _ ↦ true ]

unfoldable pub insert_text : String → List String → List String
insert_text s [] = s ∷ []
insert_text s (t ∷ ts) = if text_leb s t then s ∷ t ∷ ts else t ∷ insert_text s ts

-- `sort.Strings`, which orders by bytes
unfoldable pub sort_texts : List String → List String
unfolding insert_text
sort_texts [] = []
sort_texts (s ∷ ts) = insert_text s (sort_texts ts)

-- A `switch` whose cases are texts, or a membership test on a slice of texts.
abbrev pub is_one_of : List String → String → Bool
is_one_of [] s = false
is_one_of (t ∷ ts) s = str_eq s t || is_one_of ts s

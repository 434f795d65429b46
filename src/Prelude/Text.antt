-- ===== src/Prelude/Text.antt =====
-- Python's operations on texts: order, stripping, and the characters that matter.
use Prim.Native.Nat.{ℕ, suc, Ordering}
use Prim.Native.Char.{Char, code}
use Prim.Native.String.{String, compare}
use mathlib.Core.Bool.{Bool, true, false, ◌&&◌, ◌||◌}
use mathlib.Core.List.{List, [], ◌∷◌}
use vpn_management_panel.Prelude.Tests.{◌==◌, leb, if◌then◌else◌}

-- Python's order of texts, by code points.
abbrev pub text_leb : String → String → Bool
text_leb s t = elim (compare s t) [ Ordering.gt ↦ false | _ ↦ true ]

abbrev pub insert_text : String → List String → List String
insert_text s [] = s ∷ []
insert_text s (t ∷ texts) =
    let rest = insert_text s texts in if text_leb s t then s ∷ t ∷ texts else t ∷ rest

abbrev pub sorted_texts : List String → List String
sorted_texts [] = []
sorted_texts (t ∷ texts) = insert_text t (sorted_texts texts)

-- `str.isspace` of a character.
abbrev pub is_space : ℕ → Bool
is_space c =
    leb 9 c && leb c 13
    || leb 28 c && leb c 32
    || c == 133
    || c == 160
    || c == 5760
    || leb 8192 c && leb c 8202
    || c == 8232
    || c == 8233
    || c == 8239
    || c == 8287
    || c == 12288

abbrev pub lstrip : String → String
lstrip String.[] = String.[]
lstrip (String.◌∷◌ c s) = let rest = lstrip s in if is_space (code c) then rest else String.◌∷◌ c s

abbrev pub is_blank : String → Bool
is_blank String.[] = true
is_blank (String.◌∷◌ c s) = is_space (code c) && is_blank s

abbrev pub rstrip : String → String
rstrip String.[] = String.[]
rstrip (String.◌∷◌ c s) =
    let rest = rstrip s in if is_blank (String.◌∷◌ c s) then String.[] else String.◌∷◌ c rest

-- `text.strip()`
unfoldable pub strip : String → String
strip s = rstrip (lstrip s)

-- `chr(c) in text`
unfoldable pub has_char : ℕ → String → Bool
has_char a String.[] = false
has_char a (String.◌∷◌ c s) = code c == a || has_char a s

-- `s + t`
infixr 60 ◌<>◌
unfoldable pub ◌<>◌ : String → String → String
String.[] <> t = t
String.◌∷◌ c s <> t = String.◌∷◌ c (s <> t)

-- `s.startswith(p)`, for a prefix p
unfoldable pub starts_with : String → String → Bool
starts_with String.[] s = true
starts_with (String.◌∷◌ c p) String.[] = false
starts_with (String.◌∷◌ c p) (String.◌∷◌ d s) = code c == code d && starts_with p s

-- `s.split(chr(c), 1)[1]` and the last part of `s.partition(chr(c))`: what follows the character.
unfoldable pub after_char : ℕ → String → String
after_char a String.[] = String.[]
after_char a (String.◌∷◌ c s) = let rest = after_char a s in if code c == a then s else rest

-- The first part of `s.partition(chr(c))`: what precedes the character.
unfoldable pub before_char : ℕ → String → String
before_char a String.[] = String.[]
before_char a (String.◌∷◌ c s) =
    let rest = before_char a s in if code c == a then String.[] else String.◌∷◌ c rest

-- `s.rstrip(chr(c))`
unfoldable pub all_char : ℕ → String → Bool
all_char a String.[] = true
all_char a (String.◌∷◌ c s) = code c == a && all_char a s

unfoldable pub rstrip_char : ℕ → String → String
unfolding all_char
rstrip_char a String.[] = String.[]
rstrip_char a (String.◌∷◌ c s) =
    let rest = rstrip_char a s in
    if all_char a (String.◌∷◌ c s) then String.[] else String.◌∷◌ c rest

-- `s.endswith(chr(c))`
unfoldable pub ends_with_char : ℕ → String → Bool
ends_with_char a String.[] = false
ends_with_char a (String.◌∷◌ c String.[]) = code c == a
ends_with_char a (String.◌∷◌ _ s) = ends_with_char a s

-- `len(s)`
unfoldable pub text_length : String → ℕ
text_length String.[] = 0
text_length (String.◌∷◌ c s) = suc (text_length s)

-- `s[2:]`
abbrev pub drop_two : String → String
drop_two (String.◌∷◌ _ (String.◌∷◌ _ s)) = s
drop_two _ = String.[]

-- `s.lower()`, of the ASCII letters: the letter of `lower` that stands where `upper` has the character.
abbrev pub letter_at : String → String → Char → Char
letter_at (String.◌∷◌ u upper) (String.◌∷◌ l lower) c =
    let rest = letter_at upper lower c in if code u == code c then l else rest
letter_at _ _ c = c

unfoldable pub lower : String → String
lower String.[] = String.[]
lower (String.◌∷◌ c s) =
    String.◌∷◌ (letter_at "ABCDEFGHIJKLMNOPQRSTUVWXYZ" "abcdefghijklmnopqrstuvwxyz" c) (lower s)

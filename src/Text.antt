-- ===== src/Text.antt =====
-- Python's `str` as a list of code points, with the methods that the program calls: `strip`,
-- `split()`, `split("\n\n")` and `" ".join`. Used by domain/notes.py, domain/users.py,
-- domain/indexing.py and services/rag.py of app/src/notes_rag.
pub mod Strip
pub mod Split
use rag_anotacoes_sdd.Prelude.{
  ℕ, ◌≡◌, refl, arith, Bool, true, false, ◌&&◌, ◌||◌, List, [], ◌∷◌, ◌++◌, leb, ◌==◌, if◌then◌else◌,
  null,
}

abbrev pub Text : Type 0
Text = List ℕ

-- `str.isspace` of one character: the 29 white-space characters of CPython.
unfoldable pub is_space : ℕ → Bool
is_space c =
    leb 9 c && leb c 13
    || leb 28 c && leb c 32
    || c == 0x85
    || c == 0xa0
    || c == 0x1680
    || leb 0x2000 c && leb c 0x200a
    || c == 0x2028
    || c == 0x2029
    || c == 0x202f
    || c == 0x205f
    || c == 0x3000

unfoldable pub lstrip : Text → Text
lstrip [] = []
lstrip (c ∷ s) = if is_space c then lstrip s else c ∷ s

abbrev drop_last_space : ℕ → Text → Text
drop_last_space c [] = if is_space c then [] else c ∷ []
drop_last_space c (d ∷ r) = c ∷ d ∷ r

unfoldable pub rstrip : Text → Text
rstrip [] = []
rstrip (c ∷ s) = drop_last_space c (rstrip s)

unfoldable pub strip : Text → Text
strip s = rstrip (lstrip s)

abbrev pub flush : Text → List Text
flush [] = []
flush (c ∷ w) = (c ∷ w) ∷ []

-- `s.split()`, with the characters of the word that is being read.
unfoldable pub split_from : Text → Text → List Text
split_from word [] = flush word
split_from word (c ∷ s) = elim (is_space c) [
  | true ↦ flush word ++ split_from [] s
  | false ↦ split_from (word ++ c ∷ []) s
]

abbrev pub split : Text → List Text
split s = split_from [] s

-- `s.split("\n\n")`, with the characters of the part that is being read.
unfoldable pub paragraphs_from : Text → Text → List Text
paragraphs_from part [] = part ∷ []
paragraphs_from part (c ∷ []) = (part ++ c ∷ []) ∷ []
paragraphs_from part (c ∷ d ∷ s) = elim (c == 10 && d == 10) [
  | true ↦ part ∷ paragraphs_from [] s
  | false ↦ paragraphs_from (part ++ c ∷ []) (d ∷ s)
]

-- `" ".join(words)`
unfoldable pub join : List Text → Text
join [] = []
join (w ∷ []) = w
join (w ∷ v ∷ ws) = w ++ 32 ∷ join (v ∷ ws)

-- `==` on `str`
unfoldable pub text_eq : Text → Text → Bool
text_eq [] [] = true
text_eq (a ∷ s) (b ∷ t) = a == b && text_eq s t
text_eq _ _ = false

pub text_eq_sound : (s t : Text) → text_eq s t ≡ true → s ≡ t
unfolding text_eq
text_eq_sound [] [] h = refl
text_eq_sound [] (b ∷ t) h = cc
text_eq_sound (a ∷ s) [] h = cc
text_eq_sound (a ∷ s) (b ∷ t) h = ground (arith, text_eq_sound s t)

pub text_eq_refl : (s : Text) → text_eq s s ≡ true
unfolding text_eq
text_eq_refl [] = refl
text_eq_refl (a ∷ s) = ground (arith, text_eq_refl s)

-- ===== src/Common/Words.antt =====
-- Words and lines: what the program does with `str.split()`, `str.join` and `sorted`.
use mathlib.Core.Bool.{Bool, true, false}
use mathlib.Core.List.{List, [], ◌∷◌, ◌++◌, reverse}
use syncore.Common.Tests.{ltb, if◌then◌else◌, ◌==◌}
use syncore.Common.Strings.{Text, is_space, text_eq}

-- A finished word, when there is one.
abbrev push_word : Text → List Text → List Text
push_word [] words = words
push_word (c ∷ w) words = reverse (c ∷ w) ∷ words

abbrev words_from : Text → Text → List Text
words_from word [] = push_word word []
words_from word (c ∷ s) =
    let next = words_from [] s in
    let same = words_from (c ∷ word) s in if is_space c then push_word word next else same

-- text.split()
abbrev pub words : Text → List Text
words s = words_from [] s

-- separator.join(texts)
abbrev pub join : Text → List Text → Text
join separator [] = []
join separator (t ∷ []) = t
join separator (t ∷ u ∷ more) = t ++ separator ++ join separator (u ∷ more)

-- text in texts
abbrev pub text_in : Text → List Text → Bool
text_in t [] = false
text_in t (u ∷ us) = if text_eq u t then true else text_in t us

-- a <= b, by code points
abbrev pub text_leb : Text → Text → Bool
text_leb [] b = true
text_leb (x ∷ a) [] = false
text_leb (x ∷ a) (y ∷ b) =
    let rest = text_leb a b in if ltb x y then true else if x == y then rest else false

abbrev pub insert_text : Text → List Text → List Text
insert_text t [] = t ∷ []
insert_text t (u ∷ us) = if text_leb t u then t ∷ u ∷ us else u ∷ insert_text t us

-- sorted(texts)
abbrev pub sort_texts : List Text → List Text
sort_texts [] = []
sort_texts (t ∷ ts) = insert_text t (sort_texts ts)

-- ===== src/Base/Texts.antt =====
-- Go strings and byte slices: lists of bytes, with the functions of package `strings` that the
-- program calls. Quoted literals are ASCII.
use Prim.Native.Nat.{ℕ, zero, suc, ◌-◌}
use Prim.Native.Char.{code}
use Prim.Native.String.{String}
use mathlib.Core.Path.{◌≡◌, refl}
use mathlib.Core.Logic.{◌↔◌, ◌⊎◌, inl, inr}
use mathlib.Core.Bool.{Bool, true, false, ◌&&◌, ◌||◌}
use mathlib.Core.Option.{Option, none, some}
use mathlib.Core.List.{List, [], ◌∷◌, ◌++◌, reverse, map}
use native.Mathlib.Omega.{arith}
use mock_my_mta.Base.Bools.{eqb, Bool-cases, if◌then◌else◌}
use mock_my_mta.Base.Lists.{length, take, drop}

abbrev pub Text : Type 0
Text = List ℕ

-- The bytes of a literal.
abbrev pub lit : String → Text
lit String.[] = []
lit (String.◌∷◌ c s) = code c ∷ lit s

infix 50 ◌==◌
unfoldable pub ◌==◌ : Text → Text → Bool
[] == [] = true
[] == (y ∷ ys) = false
(x ∷ xs) == [] = false
(x ∷ xs) == (y ∷ ys) = eqb x y && xs == ys

pub eq_refl : (s : Text) → (s == s) ≡ true
unfolding ◌==◌
eq_refl [] = refl
eq_refl (x ∷ xs) = ground (arith, eq_refl xs)

pub eq_of_test : (s t : Text) → (s == t) ≡ true → s ≡ t
unfolding ◌==◌
eq_of_test [] [] h = refl
eq_of_test [] (y ∷ ys) h = cc
eq_of_test (x ∷ xs) [] h = cc
eq_of_test (x ∷ xs) (y ∷ ys) h = ground (arith, eq_of_test xs ys)

pub eq_iff : (s t : Text) → ((s == t) ≡ true) ↔ (s ≡ t)
eq_iff s t = (eq_of_test s t, λ e. rw (← e) (eq_refl s))

pub text_cases : (s t : Text) → (s ≡ t) ⊎ ((s == t) ≡ false)
text_cases s t = elim (Bool-cases (s == t)) [ inl e ↦ inl (eq_of_test s t e) | inr e ↦ inr e ]

abbrev pub member : Text → List Text → Bool
member s [] = false
member s (t ∷ ts) = s == t || member s ts

pub member-snoc :
    (j k : Text) (ks : List Text) → member j (ks ++ (k ∷ [])) ≡ (member j ks || j == k)
member-snoc j k [] = ground arith
member-snoc j k (i ∷ ks) = ground (arith, member-snoc j k ks)

-- strings.HasPrefix
unfoldable pub has_prefix : Text → Text → Bool
has_prefix s [] = true
has_prefix [] (p ∷ ps) = false
has_prefix (c ∷ s) (p ∷ ps) = eqb c p && has_prefix s ps

-- strings.HasSuffix
unfoldable pub has_suffix : Text → Text → Bool
unfolding has_prefix
has_suffix s t = has_prefix (reverse s) (reverse t)

-- strings.Contains
unfoldable pub contains : Text → Text → Bool
unfolding has_prefix
contains [] t = has_prefix [] t
contains (c ∷ s) t = has_prefix (c ∷ s) t || contains s t

-- strings.Index of one byte: what stands before its first occurrence, and what behind.
unfoldable pub split_at : ℕ → Text → Option (Text × Text)
split_at b [] = none
split_at b (c ∷ s) =
    let rest = split_at b s in
    if eqb c b
    then some ([], s)
    else elim rest [ none ↦ none | some (pre, post) ↦ some (c ∷ pre, post) ]

-- strings.TrimPrefix
unfoldable pub trim_prefix : Text → Text → Text
unfolding has_prefix
trim_prefix s p = if has_prefix s p then drop (length p) s else s

-- strings.TrimSuffix
unfoldable pub trim_suffix : Text → Text → Text
unfolding has_suffix
trim_suffix s p = if has_suffix s p then take (length s - length p) s else s

-- strings.TrimLeft by one byte
unfoldable pub trim_left : ℕ → Text → Text
trim_left b [] = []
trim_left b (c ∷ s) = let rest = trim_left b s in if eqb c b then rest else c ∷ s

-- strings.Trim by one byte
unfoldable pub trim_byte : ℕ → Text → Text
unfolding trim_left
trim_byte b s = reverse (trim_left b (reverse (trim_left b s)))

-- strings.ReplaceAll of one byte
unfoldable pub replace_byte : ℕ → Text → Text → Text
replace_byte b new [] = []
replace_byte b new (c ∷ s) =
    let rest = replace_byte b new s in if eqb c b then new ++ rest else c ∷ rest

-- The encodings of white space in UTF-8 (unicode.IsSpace).
abbrev pub spaces : List Text
spaces =
    (9 ∷ [])
    ∷ (10 ∷ [])
    ∷ (11 ∷ [])
    ∷ (12 ∷ [])
    ∷ (13 ∷ [])
    ∷ (32 ∷ [])
    ∷ (0xC2 ∷ 0x85 ∷ [])
    ∷ (0xC2 ∷ 0xA0 ∷ [])
    ∷ (0xE1 ∷ 0x9A ∷ 0x80 ∷ [])
    ∷ (0xE2 ∷ 0x80 ∷ 0x80 ∷ [])
    ∷ (0xE2 ∷ 0x80 ∷ 0x81 ∷ [])
    ∷ (0xE2 ∷ 0x80 ∷ 0x82 ∷ [])
    ∷ (0xE2 ∷ 0x80 ∷ 0x83 ∷ [])
    ∷ (0xE2 ∷ 0x80 ∷ 0x84 ∷ [])
    ∷ (0xE2 ∷ 0x80 ∷ 0x85 ∷ [])
    ∷ (0xE2 ∷ 0x80 ∷ 0x86 ∷ [])
    ∷ (0xE2 ∷ 0x80 ∷ 0x87 ∷ [])
    ∷ (0xE2 ∷ 0x80 ∷ 0x88 ∷ [])
    ∷ (0xE2 ∷ 0x80 ∷ 0x89 ∷ [])
    ∷ (0xE2 ∷ 0x80 ∷ 0x8A ∷ [])
    ∷ (0xE2 ∷ 0x80 ∷ 0xA8 ∷ [])
    ∷ (0xE2 ∷ 0x80 ∷ 0xA9 ∷ [])
    ∷ (0xE2 ∷ 0x80 ∷ 0xAF ∷ [])
    ∷ (0xE2 ∷ 0x81 ∷ 0x9F ∷ [])
    ∷ (0xE3 ∷ 0x80 ∷ 0x80 ∷ [])
    ∷ []

-- The length of the first of some texts that is a prefix, 0 if none is.
unfoldable pub width : List Text → Text → ℕ
unfolding has_prefix
width [] s = 0
width (e ∷ es) s = if has_prefix s e then length e else width es s

-- Drops prefixes from a list of texts for as long as there is one.
unfoldable pub trim_front : ℕ → List Text → Text → Text
unfolding width
trim_front zero es s = s
trim_front (suc n) es s =
    let rest = trim_front n es (drop (width es s) s) in if eqb (width es s) 0 then s else rest

-- strings.TrimSpace; each round drops a byte at least, so the length is fuel enough.
unfoldable pub trim_space : Text → Text
unfolding trim_front
trim_space s =
    let t = trim_front (length s) spaces s in
    reverse (trim_front (length t) (map reverse spaces) (reverse t))

-- strings.ReplaceAll of a text that is not empty: `skip` bytes of an occurrence are still to pass.
unfoldable pub replace_from : Text → Text → ℕ → Text → Text
unfolding has_prefix
replace_from old new skip [] = []
replace_from old new (suc k) (c ∷ s) = replace_from old new k s
replace_from old new zero (c ∷ s) =
    let hit = replace_from old new (length old - 1) s in
    let miss = replace_from old new 0 s in if has_prefix (c ∷ s) old then new ++ hit else c ∷ miss

unfoldable pub replace_all : Text → Text → Text → Text
unfolding replace_from
replace_all s old new = replace_from old new 0 s

abbrev word_then : Text → List Text → List Text
word_then [] words = words
word_then (c ∷ word) words = (c ∷ word) ∷ words

-- strings.Fields, behind the letters of a word that are already read.
unfoldable pub fields_from : Text → ℕ → Text → List Text
unfolding width
fields_from word skip [] = word_then word []
fields_from word (suc k) (c ∷ s) = fields_from word k s
fields_from word zero (c ∷ s) =
    let next = fields_from [] (width spaces (c ∷ s) - 1) s in
    let same = fields_from (word ++ (c ∷ [])) 0 s in
    if eqb (width spaces (c ∷ s)) 0 then same else word_then word next

-- strings.Join
unfoldable pub join : List Text → Text → Text
join [] sep = []
join (w ∷ []) sep = w
join (w ∷ v ∷ ws) sep = w ++ (sep ++ join (v ∷ ws) sep)

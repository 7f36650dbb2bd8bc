-- ===== src/Matcher/Tokens/Progress.antt =====
-- The scan of a query ends, and it loses nothing but white space.
use mock_my_mta.Base.{
  all, Text, ◌≡◌, refl, ap, ◌∙◌, sym, List, [], ◌∷◌, ◌++◌, Option, none, some, Bool, true, false,
  not, eqb, ℕ, zero, suc, ◌≤◌, ◌<◌, length, length-append, keep, arith, Bool-cases, inl, inr,
}
use mathlib.Core.List.{append_assoc}
use mock_my_mta.Matcher.Tokens.{
  is_blank, is_word, span, quote_mark, closed, quoted, in_quotes, after_word, plain_value,
  keyed_value, keyed, token_at, find_all, non_blank,
}

pub append-span : (p : ℕ → Bool) (s : Text) → (span p s).0 ++ (span p s).1 ≡ s
unfolding span
append-span p [] = refl
append-span p (c ∷ s) = elim (Bool-cases (p c)) [
  | inl e ↦ rw e (ap (λ t. c ∷ t) (append-span p s))
  | inr e ↦ rw e
]

-- Nothing, or a byte that fails the test.
abbrev pub Stops : (ℕ → Bool) → Text → Type 0
Stops p [] = Unit
Stops p (c ∷ s) = p c ≡ false

pub span-append :
    (p : ℕ → Bool) (w rest : Text) → all p w ≡ true → Stops p rest → span p (w ++ rest) ≡ (w, rest)
unfolding span
span-append p [] [] h g = refl
span-append p [] (c ∷ rest) h g = rw g
span-append p (c ∷ w) rest h g = ground (arith, span-append p w rest)

-- A split of a text into a front that is not empty and a rest.
abbrev pub Splits : Text → Text × Text → Type 0
Splits s (front, rest) = (front ++ rest ≡ s) × (0 < length front)

non_blank-Splits : (c : ℕ) (s : Text) → is_blank c ≡ false → Splits (c ∷ s) (non_blank (c ∷ s))
unfolding span
non_blank-Splits c s e = rw e (ap (λ t. c ∷ t) (append-span (λ b. not (is_blank b)) s), omega arith)

-- The rest begins with a byte that fails the test.
span-stop : (p : ℕ → Bool) (s : Text) (c : ℕ) (r : Text) → (span p s).1 ≡ c ∷ r → p c ≡ false
unfolding span
span-stop p [] c r h = cc
span-stop p (d ∷ s) c r h = ground (arith, span-stop p s c r)

closed-append :
    (front rest q r : Text)
    → ((c : ℕ) (t : Text) → rest ≡ c ∷ t → eqb c quote_mark ≡ true)
    → closed (front, rest) ≡ some (q, r)
    → q ++ (quote_mark ∷ r) ≡ front ++ rest
closed-append [] rest q r stop h = cc
closed-append (f ∷ fs) [] q r stop h = cc
closed-append (f ∷ fs) (c ∷ rest) q r stop h = ground (arith, stop c rest refl)

-- What `quoted` takes, with its marks, stands at the front.
quoted-append : (s q rest : Text) → quoted s ≡ some (q, rest) → in_quotes q ++ rest ≡ s
unfolding quoted
quoted-append [] q rest h = cc
quoted-append (d ∷ s) q rest h = elim (Bool-cases (eqb d quote_mark)) [
  | inr e ↦ cc (rw e at h)
  | inl e ↦
      let p : ℕ → Bool = λ b. not (eqb b quote_mark) in
      let inside =
        closed-append (span p s).0 (span p s).1 q rest
          (λ c t stop. ground (arith, span-stop p s c t stop)) (rw e at h) in
      ap (λ t. quote_mark ∷ t) (append_assoc q (quote_mark ∷ []) rest ∙ inside ∙ append-span p s)
      ∙ ground arith
]

quoted-Splits :
    (s : Text) (o : Option (Text × Text))
    → quoted s ≡ o
    → Splits s (non_blank s)
    → Splits s (elim o [ none ↦ non_blank s | some (q, rest) ↦ (in_quotes q, rest) ])
quoted-Splits s none e plain = plain
quoted-Splits s (some (q, rest)) e plain = (quoted-append s q rest e, omega arith)

module _ (s head r : Text) (front : head ++ r ≡ s) (some_head : 0 < length head)
    (plain : Splits s (non_blank s)) where
  plain_value-Splits :
      (value rest : Text) → value ++ rest ≡ r → Splits s (plain_value s head (value, rest))
  plain_value-Splits [] rest e = plain
  plain_value-Splits (v ∷ vs) rest e = (
    append_assoc head (v ∷ vs) rest ∙ ap (λ t. head ++ t) e ∙ front,
    omega (arith, length-append head (v ∷ vs)),
  )

  keyed_value-Splits : (o : Option (Text × Text)) → quoted r ≡ o → Splits s (keyed_value s head r o)
  keyed_value-Splits none e =
      plain_value-Splits (non_blank r).0 (non_blank r).1 (append-span (λ c. not (is_blank c)) r)
  keyed_value-Splits (some (q, rest)) e = (
    append_assoc head (in_quotes q) rest ∙ ap (λ t. head ++ t) (quoted-append r q rest e) ∙ front,
    omega (arith, length-append head (in_quotes q)),
  )

after_word-append :
    (front rest word r : Text)
    → after_word (front, rest) ≡ some (word, r)
    → (word ++ r ≡ front ++ rest) × (0 < length word)
after_word-append [] rest word r h = cc
after_word-append (w ∷ ws) [] word r h = cc
after_word-append (w ∷ ws) (c ∷ rest) word r h = elim (Bool-cases (eqb c b':')) [
  | inr e ↦ cc (rw e at h)
  | inl e ↦
      let taken : Path (Option (Text × Text)) (some ((w ∷ ws) ++ (b':' ∷ []), rest))
          (some (word, r)) =
        rw e at h in
      let colon : c ≡ b':' = ground arith in
      let word_eq : (w ∷ ws) ++ (b':' ∷ []) ≡ word = cc in
      let rest_eq : rest ≡ r = cc in
      (
        rw (← word_eq, ← rest_eq, colon) (append_assoc (w ∷ ws) (b':' ∷ []) rest),
        rw (← word_eq) (omega (arith, length-append (w ∷ ws) (b':' ∷ []))),
      )
]

keyed-Splits :
    (s : Text) (o : Option (Text × Text))
    → after_word (span is_word s) ≡ o
    → Splits s (non_blank s)
    → Splits s (keyed s o)
keyed-Splits s none e plain = quoted-Splits s (quoted s) refl plain
keyed-Splits s (some (word, r)) e plain =
    let (same, pos) = after_word-append (span is_word s).0 (span is_word s).1 word r e in
    let sp = span is_blank r in
    keyed_value-Splits s (word ++ sp.0) sp.1
      (append_assoc word sp.0 sp.1
        ∙ ap (λ t. word ++ t) (append-span is_blank r)
        ∙ same
        ∙ append-span is_word s)
      (omega (arith, length-append word sp.0)) plain (quoted sp.1) refl

pub token_at-Splits : (c : ℕ) (s : Text) → is_blank c ≡ false → Splits (c ∷ s) (token_at (c ∷ s))
unfolding token_at
token_at-Splits c s e =
    keyed-Splits (c ∷ s) (after_word (span is_word (c ∷ s))) refl (non_blank-Splits c s e)

-- The texts of a list, one behind the other.
abbrev pub joined : List Text → Text
joined [] = []
joined (t ∷ ts) = t ++ joined ts

keep-append : (p : ℕ → Bool) (s t : Text) → keep p (s ++ t) ≡ keep p s ++ keep p t
keep-append p [] t = refl
keep-append p (c ∷ s) t = ground (arith, keep-append p s t)

find_all_keeps :
    (f : ℕ) (s : Text)
    → length s ≤ f
    → keep (λ c. not (is_blank c)) (joined (find_all f s)) ≡ keep (λ c. not (is_blank c)) s
unfolding find_all
find_all_keeps zero [] h = refl
find_all_keeps zero (c ∷ s) h = absurd (omega arith)
find_all_keeps (suc f) [] h = refl
find_all_keeps (suc f) (c ∷ s) h = elim (Bool-cases (is_blank c)) [
  | inl e ↦ rw e (find_all_keeps f s (omega arith))
  | inr e ↦
      let p : ℕ → Bool = λ c. not (is_blank c) in
      let t = token_at (c ∷ s) in
      let (same, some_front) = token_at-Splits c s e in
      let shorter : length t.1 ≤ f =
        omega (arith, ap (λ (u : Text). length u) same, length-append t.0 t.1) in
      rw e (
        keep-append p t.0 (joined (find_all f t.1))
        ∙ ap (λ u. keep p t.0 ++ u) (find_all_keeps f t.1 shorter)
        ∙ sym (keep-append p t.0 t.1)
        ∙ ap (keep p) same
        ∙ rw e)
]

-- The matches that tokenizeQuery finds, put one behind the other, have the bytes of the query in
-- their order, but for white space: with the length of the query as fuel the scan reaches the end
-- of every query, and it drops, repeats and moves nothing else.
pub joined-find_all :
    (query : Text)
    → keep (λ c. not (is_blank c)) (joined (find_all (length query) query))
      ≡ keep (λ c. not (is_blank c)) query
joined-find_all query = find_all_keeps (length query) query (omega arith)

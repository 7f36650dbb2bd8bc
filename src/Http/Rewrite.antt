-- ===== src/Http/Rewrite.antt =====
-- rewriteSenderHeader and writeHeaders of http/httpd.go, which put another sender into a message
-- before it is relayed.
pub mod Lines
use mock_my_mta.Base.{
  Text, lit, ◌==◌, eq_iff, eq_refl, text_cases, ◌≡◌, refl, ap, ap₂, ◌∙◌, sym, List, [], ◌∷◌, ◌++◌,
  Option, none, some, Bool, true, false, not, ◌||◌, if◌then◌else◌, ℕ, eqb, Outcome, ok, err, member,
  arith, Bool-cases, inl, inr, map,
}
use mathlib.Core.List.{Perm, append_assoc, append-nil, reverse}
use mathlib.Core.List.Perm
use mock_my_mta.Base.Dict.{Dict, lookup, insert, keys}
use mock_my_mta.Base.Texts.{has_prefix, split_at, trim_left}
use mock_my_mta.Std.{Std, RawHeaders, Reader}

abbrev pub crlf : Text
crlf = 13 ∷ 10 ∷ []

-- strings.Index, and what stands before it.
unfoldable pub before_text : Text → Text → Option Text
unfolding has_prefix
before_text sep [] = if has_prefix [] sep then some [] else none
before_text sep (c ∷ s) =
    let rest = before_text sep s in
    if has_prefix (c ∷ s) sep
    then some []
    else elim rest [ none ↦ none | some pre ↦ some (c ∷ pre) ]

unfoldable pub header_block : Text → Text
unfolding before_text
header_block raw = elim (before_text (crlf ++ crlf) raw) [
  | some block ↦ block
  | none ↦ elim (before_text (10 ∷ 10 ∷ []) raw) [ some block ↦ block | none ↦ raw ]
]

-- strings.Split(s, "\n"), behind a line that is already read.
unfoldable pub split_lines : Text → Text → List Text
split_lines line [] = line ∷ []
split_lines line (c ∷ s) =
    let same = split_lines (line ++ (c ∷ [])) s in
    let next = split_lines [] s in if eqb c 10 then line ∷ next else same

-- strings.TrimRight(line, "\r")
unfoldable pub trim_cr : Text → Text
unfolding trim_left
trim_cr line = reverse (trim_left 13 (reverse line))

-- hdr[key], empty for a missing key.
abbrev pub values_of : RawHeaders → Text → List Text
values_of hdr key = elim (lookup key hdr) [ none ↦ [] | some vs ↦ vs ]

-- A key with each of its values.
abbrev pub pairs : Text → List Text → List (Text × Text)
pairs key vs = map (λ v. (key, v)) vs

-- The lines of the keys in an order, and those of the headers whose key is not among them.
unfoldable pub ordered_entries : RawHeaders → List Text → List (Text × Text)
ordered_entries hdr [] = []
ordered_entries hdr (key ∷ ks) = pairs key (values_of hdr key) ++ ordered_entries hdr ks

unfoldable pub other_entries : List Text → RawHeaders → List (Text × Text)
other_entries seen [] = []
other_entries seen ((key, vs) ∷ hdr) =
    (if member key seen then [] else pairs key vs) ++ other_entries seen hdr

unfoldable pub render : List (Text × Text) → Text
render [] = []
render ((key, value) ∷ entries) = key ++ (lit ": " ++ (value ++ (crlf ++ render entries)))

-- textproto.CanonicalMIMEHeaderKey
module _ (canonical : Text → Text) where
  -- One line of the header block: the keys that were seen, and its own, if it is new.
  unfoldable pub add_key : Text → List Text → List Text
  unfolding split_at
  add_key line seen = elim line [
    | [] ↦ seen
    | c ∷ s ↦ if eqb c 32 || eqb c 9 then seen else elim (split_at 58 (c ∷ s)) [
      | none ↦ seen
      | some ([], post) ↦ seen
      | some (d ∷ name, post) ↦
          let key = canonical (d ∷ name) in if member key seen then seen else seen ++ (key ∷ [])
    ]
  ]

  -- The loop over the lines, which ends at an empty one.
  unfoldable pub ordered_keys : List Text → List Text → List Text
  unfolding add_key trim_cr
  ordered_keys [] seen = seen
  ordered_keys (line ∷ lines) seen =
      if trim_cr line == [] then seen else ordered_keys lines (add_key (trim_cr line) seen)

  -- The header lines that writeHeaders writes.
  unfoldable pub header_entries : RawHeaders → Text → List (Text × Text)
  unfolding ordered_keys ordered_entries other_entries header_block split_lines
  header_entries hdr raw =
      let seen = ordered_keys (split_lines [] (header_block raw)) [] in
      ordered_entries hdr seen ++ other_entries seen hdr

  unfoldable pub write_headers : RawHeaders → Text → Text
  unfolding header_entries render
  write_headers hdr raw = render (header_entries hdr raw)

  -- rewriteSenderHeader
  unfoldable pub rewrite_sender : Std → Text → Text → Text
  unfolding write_headers
  rewrite_sender std raw sender = if sender == [] then raw else elim (std.read_message raw) [
    | err e ↦ raw
    | ok (hdr, body) ↦
        let from : Text = elim (values_of hdr (lit "From")) [ [] ↦ [] | v ∷ vs ↦ v ] in
        if from == sender
        then raw
        else write_headers (insert (canonical (lit "From")) (sender ∷ []) hdr) raw
          ++ (crlf ++ body.content)
  ]

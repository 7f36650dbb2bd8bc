-- ===== src/Std/Ascii.antt =====
-- A small stand-in for the packages behind `Std`, on which the tests evaluate the definitions: no
-- decoding, ASCII letters, and bodies in which each part is what follows the first byte.
use mock_my_mta.Base.{
  Text, lit, ◌==◌, List, [], ◌∷◌, none, if◌then◌else◌, ◌&&◌, ℕ, ◌+◌, leb, eqb, ok, err, failed, map,
  ◌++◌, keep, any,
}
use mock_my_mta.Base.Texts.{has_suffix}
use mock_my_mta.Base.Int.{pos}
use mock_my_mta.Std.{Std, Reader, RawHeaders}

abbrev lower : ℕ → ℕ
lower c = if leb 65 c && leb c 90 then c + 32 else c

abbrev before_semicolon : Text → Text
before_semicolon [] = []
before_semicolon (c ∷ s) = let rest = before_semicolon s in if eqb c 59 then [] else c ∷ rest

abbrev pub one_part : Text → List (RawHeaders × Reader)
one_part [] = []
one_part (c ∷ s) = ([], record { content = s; fault = none }) ∷ []

abbrev after_slash : Text → Text
after_slash [] = []
after_slash (c ∷ s) =
    let rest = after_slash s in if any (eqb 47) s then rest else if eqb c 47 then s else c ∷ s

abbrev after_star : Text → Text
after_star [] = []
after_star (c ∷ s) = let rest = after_star s in if eqb c 42 then s else rest

abbrev pub ascii_std : Std
ascii_std = record {
  to_lower = map lower;
  equal_fold = λ s t. map lower s == map lower t;
  parse_media_type = λ s. record { media = before_semicolon s; params = []; fault = none };
  decode_word = λ s. ok s;
  parse_address = λ s. ok (record { name = []; address = s });
  parse_address_list = λ s. ok (record { name = []; address = s } ∷ []);
  parse_date = λ s. ok (pos 0);
  base64 = λ s. ok s;
  quoted_printable = λ s. ok s;
  charset_decoder = λ s. none;
  next_parts = λ b r. record { yielded = one_part r.content; fault = none };
  read_message = λ s.
      if s == [] then err (failed (lit "EOF")) else ok ([], record { content = s; fault = none });
  join = λ folder name. folder ++ (47 ∷ name);
  base = after_slash;
  glob = λ pattern paths. keep (λ path. has_suffix path (after_star pattern)) paths;
  create = λ path. none;
  replace_regexp = λ p s r. s;
  parse_day = λ s. ok (pos 0);
  parse_duration = λ s. ok (pos 0);
}

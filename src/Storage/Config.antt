-- ===== src/Storage/Config.antt =====
-- The scopes of a layer (storage/configuration.go).
use mock_my_mta.Base.{Text, lit, ◌==◌, List, [], ◌∷◌, Bool, false, ◌||◌}
use mock_my_mta.Base.Dict.{Dict}

pub record LayerConfig : Type 0 where
  pub kind : Text
  pub scope : List Text
  pub parameters : Dict Text

abbrev pub scope_all : Text
scope_all = lit "all"

-- The loop of hasScope over the scopes of a configuration.
unfoldable pub in_scope : Text → List Text → Bool
in_scope scope [] = false
in_scope scope (s ∷ scopes) = s == scope_all || s == scope || in_scope scope scopes

unfoldable pub has_scope : LayerConfig → Text → Bool
unfolding in_scope
has_scope c scope = in_scope scope c.scope

unfoldable pub is_writable : LayerConfig → Bool
unfolding has_scope
is_writable c = has_scope c (lit "write") || has_scope c (lit "cache") || has_scope c scope_all

abbrev pub scope_or_all : List Text → List Text
scope_or_all [] = scope_all ∷ []
scope_or_all (s ∷ scopes) = s ∷ scopes

-- NewEngine: no scope means all of them.
unfoldable pub default_scope : LayerConfig → LayerConfig
default_scope c = record c { scope = scope_or_all c.scope }

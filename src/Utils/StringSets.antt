-- ===== src/Utils/StringSets.antt =====
-- `StringSet` (operator/controllers/utils/types.go). Only membership is ever read.
use oai_k8s.Common.{String, Bool, List, [], ◌∷◌, contains}

abbrev pub StringSet : Type 0
StringSet = List String

unfoldable pub add : StringSet → List String → StringSet
add s [] = s
add s (item ∷ items) = add (item ∷ s) items

unfoldable pub new_string_set : List String → StringSet
unfolding add
new_string_set values = add [] values

abbrev pub has : StringSet → String → Bool
has s item = contains s item

-- ===== src/Shared/Keys.antt =====
-- The keys of an object against a list: `Object.keys(value).sort().join() === keys`.
use vulnseal.Prelude.{String, Bool, List, [], ◌∷◌, ◌++◌, ◌=ᵇ◌}
use vulnseal.Contract.Types.{ascii}
use vulnseal.Shared.Hex.{Text}
use vulnseal.Shared.Json.{Fields, field_keys}
use vulnseal.Shared.Envelope.{sort}

-- `join()`
abbrev pub join : List Text → Text
join [] = []
join (t ∷ []) = t
join (t ∷ u ∷ rest) = t ++ (b',' ∷ join (u ∷ rest))

unfoldable pub has_keys : String → Fields → Bool
unfolding sort ◌=ᵇ◌
has_keys keys fields = join (sort (field_keys fields)) =ᵇ ascii keys

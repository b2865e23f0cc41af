-- ===== src/Cli/Input.antt =====
-- What internal/adapter/cli takes from package strings, for lines in ASCII.
use mathlib.Core.List.{reverse}
use pvz_service.Base.{ℕ, ◌+◌, Bool, ◌&&◌, ◌||◌, List, [], ◌∷◌, map, leb, ◌==◌, if◌then◌else◌}
use pvz_service.Base.Text.{Text}

abbrev is_space : ℕ → Bool
is_space c = c == b' ' || (leb 9 c && leb c 13)

unfoldable pub trim_left : Text → Text
trim_left [] = []
trim_left (c ∷ s) = let rest = trim_left s in if is_space c then rest else c ∷ s

-- `strings.TrimSpace`
unfoldable pub trim_space : Text → Text
unfolding trim_left
trim_space s = reverse (trim_left (reverse (trim_left s)))

-- `strings.ToLower`
unfoldable pub to_lower : Text → Text
to_lower s = map (λ c. if leb b'A' c && leb c b'Z' then c + 32 else c) s

-- `strings.Fields`, with the word that is being read.
unfoldable pub fields_from : Text → Text → List Text
fields_from [] [] = []
fields_from (c ∷ word) [] = reverse (c ∷ word) ∷ []
fields_from [] (d ∷ s) = if is_space d then fields_from [] s else fields_from (d ∷ []) s
fields_from (c ∷ word) (d ∷ s) =
    if is_space d then reverse (c ∷ word) ∷ fields_from [] s else fields_from (d ∷ c ∷ word) s

unfoldable pub fields : Text → List Text
unfolding fields_from
fields s = fields_from [] s

-- ===== src/Text/Laws.antt =====
-- Trimming and case mapping.
use agentplace.Prelude.{◌≡◌, refl, [], ◌∷◌, arith}
use agentplace.Text.{Text, to_lower, to_upper}

-- Mapping to a case twice is mapping once.
pub to_lower_idem : (s : Text) → to_lower (to_lower s) ≡ to_lower s
unfolding to_lower
to_lower_idem [] = refl
to_lower_idem (c ∷ s) = ground (arith, to_lower_idem s)

pub to_upper_idem : (s : Text) → to_upper (to_upper s) ≡ to_upper s
unfolding to_upper
to_upper_idem [] = refl
to_upper_idem (c ∷ s) = ground (arith, to_upper_idem s)

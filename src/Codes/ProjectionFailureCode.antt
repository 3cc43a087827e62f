-- ===== src/Codes/ProjectionFailureCode.antt =====
-- `ProjectionFailureCode` of codes.py.
use determa_state_python.Prelude.{String, ◌≡◌, refl, List, [], ◌∷◌, some}
use determa_state_python.Codes.Enum.{from_value, EnumLaws}

pub data ProjectionFailureCode : Type 0 where
  invalid_projection_input invalid_projection_selection projection_not_lossless
        projection_transaction_unavailable unsupported_projection_boundary :
      ProjectionFailureCode

abbrev pub value : ProjectionFailureCode → String
value invalid_projection_input = "invalid_projection_input"
value invalid_projection_selection = "invalid_projection_selection"
value projection_not_lossless = "projection_not_lossless"
value projection_transaction_unavailable = "projection_transaction_unavailable"
value unsupported_projection_boundary = "unsupported_projection_boundary"

abbrev pub members : List ProjectionFailureCode
members =
    invalid_projection_input ∷ invalid_projection_selection ∷ projection_not_lossless
    ∷ projection_transaction_unavailable ∷ unsupported_projection_boundary ∷ []

pub ProjectionFailureCode-laws : EnumLaws value members
unfolding from_value
ProjectionFailureCode-laws = record { found = found }
  where
    found : (c : ProjectionFailureCode) → from_value value members (value c) ≡ some c
    found invalid_projection_input = refl
    found invalid_projection_selection = refl
    found projection_not_lossless = refl
    found projection_transaction_unavailable = refl
    found unsupported_projection_boundary = refl

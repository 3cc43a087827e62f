-- ===== src/Codes/DispositionCode.antt =====
-- `DispositionCode` of codes.py.
use determa_state_python.Prelude.{String, ◌≡◌, refl, List, [], ◌∷◌, some}
use determa_state_python.Codes.Enum.{from_value, EnumLaws}

pub data DispositionCode : Type 0 where
  deferred faulted handled not_runnable rejected unhandled : DispositionCode

abbrev pub value : DispositionCode → String
value deferred = "deferred"
value faulted = "faulted"
value handled = "handled"
value not_runnable = "not_runnable"
value rejected = "rejected"
value unhandled = "unhandled"

abbrev pub members : List DispositionCode
members = deferred ∷ faulted ∷ handled ∷ not_runnable ∷ rejected ∷ unhandled ∷ []

pub DispositionCode-laws : EnumLaws value members
unfolding from_value
DispositionCode-laws = record { found = found }
  where
    found : (c : DispositionCode) → from_value value members (value c) ≡ some c
    found deferred = refl
    found faulted = refl
    found handled = refl
    found not_runnable = refl
    found rejected = refl
    found unhandled = refl

-- ===== src/Constants.antt =====
-- backend/internal/constants: event types, case statuses with the transition table, and roles.
use Prim.Native.String.{String}
use text.Mathlib.Text.{◌==◌ as str_eq}
use gb_522_l7o.Prelude.{Bool, true, false, ◌||◌, List, [], ◌∷◌}

-- constants/event.go. `other` is a string that is none of the constants.
pub data EventType : Type 0 where
  connector splice bend break end unknown : EventType
  other : String → EventType

unfoldable pub event_type_valid : EventType → Bool
event_type_valid (other s) = false
event_type_valid _ = true

-- constants/case.go. The column of a stored case admits these five values alone.
pub data CaseStatus : Type 0 where
  draft analyzing pending_review confirmed closed : CaseStatus

abbrev pub same_status : CaseStatus → CaseStatus → Bool
same_status draft draft = true
same_status analyzing analyzing = true
same_status pending_review pending_review = true
same_status confirmed confirmed = true
same_status closed closed = true
same_status _ _ = false

-- The table `transitions`, as the statuses that may follow.
unfoldable pub transitions : CaseStatus → List CaseStatus
transitions draft = analyzing ∷ []
transitions analyzing = draft ∷ pending_review ∷ []
transitions pending_review = confirmed ∷ []
transitions confirmed = closed ∷ []
transitions closed = []

abbrev pub has_status : CaseStatus → List CaseStatus → Bool
has_status s [] = false
has_status s (t ∷ ts) = same_status s t || has_status s ts

unfoldable pub can_transition : CaseStatus → CaseStatus → Bool
unfolding transitions
can_transition from to = has_status to (transitions from)

abbrev pub role_analyst : String
role_analyst = "analyst"

abbrev pub role_reviewer : String
role_reviewer = "reviewer"

abbrev pub role_admin : String
role_admin = "admin"

unfoldable pub valid_role : String → Bool
valid_role role = str_eq role role_analyst || str_eq role role_reviewer || str_eq role role_admin

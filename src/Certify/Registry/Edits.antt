-- ===== src/Certify/Registry/Edits.antt =====
-- certify/lifecycle.py: the `edits` of `amend`, one constructor for each field that a key can name.
use sanhita.Prelude.{String, Bool, true, false, List, [], ◌∷◌, Option, any, ℕ, ◌≡◌, refl, arith}
use sanhita.Ir.Enums.{Actor, Modality, RuleStatus}
use sanhita.Ir.Schema.{
  Action, Trigger, Deadline, Condition, EvidenceReq, SourceAnchor, Certification, Version,
  ExtractionMeta, Obligation,
}

pub data Edit : Type 0 where
  set_id : String → Edit
  set_status : RuleStatus → Edit
  set_certification : Option Certification → Edit
  set_version : Version → Edit
  set_actor : Actor → Edit
  set_modality : Modality → Edit
  set_action : Action → Edit
  set_trigger : Trigger → Edit
  set_deadline : Option Deadline → Edit
  set_conditions : List Condition → Edit
  set_evidence : List EvidenceReq → Edit
  set_penalty_ref : Option String → Edit
  set_source : SourceAnchor → Edit
  set_field_provenance : List (String × (ℕ × ℕ)) → Edit
  set_extraction : Option ExtractionMeta → Edit

-- `{"id", "status", "certification", "version"} & set(edits)`
abbrev pub is_forbidden : Edit → Bool
is_forbidden (set_id _) = true
is_forbidden (set_status _) = true
is_forbidden (set_certification _) = true
is_forbidden (set_version _) = true
is_forbidden _ = false

abbrev pub names_forbidden : List Edit → Bool
names_forbidden edits = any is_forbidden edits

unfoldable pub apply_edit : Obligation → Edit → Obligation
apply_edit o (set_id v) = record o { id = v }
apply_edit o (set_status v) = record o { status = v }
apply_edit o (set_certification v) = record o { certification = v }
apply_edit o (set_version v) = record o { version = v }
apply_edit o (set_actor v) = record o { actor = v }
apply_edit o (set_modality v) = record o { modality = v }
apply_edit o (set_action v) = record o { action = v }
apply_edit o (set_trigger v) = record o { trigger = v }
apply_edit o (set_deadline v) = record o { deadline = v }
apply_edit o (set_conditions v) = record o { conditions = v }
apply_edit o (set_evidence v) = record o { evidence = v }
apply_edit o (set_penalty_ref v) = record o { penalty_ref = v }
apply_edit o (set_source v) = record o { source = v }
apply_edit o (set_field_provenance v) = record o { field_provenance = v }
apply_edit o (set_extraction v) = record o { extraction = v }

unfoldable pub apply_edits : List Edit → Obligation → Obligation
unfolding apply_edit
apply_edits [] o = o
apply_edits (e ∷ es) o = apply_edits es (apply_edit o e)

apply_edit-id : (o : Obligation) (e : Edit) → is_forbidden e ≡ false → (apply_edit o e).id ≡ o.id
unfolding apply_edit
apply_edit-id o (set_id v) h = cc
apply_edit-id o _ h = refl

-- Edits that name no forbidden field leave the id alone.
pub apply_edits-id :
    (es : List Edit) (o : Obligation) → names_forbidden es ≡ false → (apply_edits es o).id ≡ o.id
unfolding apply_edits
apply_edits-id [] o h = refl
apply_edits-id (e ∷ es) o h = ground (arith, apply_edits-id es (apply_edit o e), apply_edit-id o e)

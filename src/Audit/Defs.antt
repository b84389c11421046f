-- ===== src/Audit/Defs.antt =====
-- The definitions of audit.py.
use Prim.Native.String.{String}
use rental_property.Base.{
  ℕ, Bool, true, false, ◌&&◌, ◌||◌, Option, none, some, List, [], ◌∷◌, ◌++◌, ◌==◌, if◌then◌else◌,
}
use rental_property.Text.{Str, codes, lower}
use rental_property.Models.{User, AuditAction, EntityType, Value, Values, Fields}
use rental_property.Action.{Action, ⊤, modify}

abbrev pub is_prefix : Str → Str → Bool
is_prefix [] s = true
is_prefix (c ∷ p) [] = false
is_prefix (c ∷ p) (d ∷ s) = c == d && is_prefix p s

-- `fragment in s`
abbrev pub contains : Str → Str → Bool
contains p [] = is_prefix p []
contains p (c ∷ s) = is_prefix p (c ∷ s) || contains p s

-- `_SENSITIVE_KEY_FRAGMENTS`
abbrev pub sensitive_key_fragments : List Str
sensitive_key_fragments =
    codes "password"
    ∷ codes "token"
    ∷ codes "secret"
    ∷ codes "authorization"
    ∷ codes "reference"
    ∷ codes "credential"
    ∷ []

any_in : List Str → Str → Bool
any_in [] s = false
any_in (p ∷ ps) s = contains p s || any_in ps s

unfoldable pub is_sensitive : Str → Bool
unfolding any_in lower
is_sensitive key = any_in sensitive_key_fragments (lower key)

abbrev pub redacted : Value
redacted = Value.text (codes "[redacted]")

-- `_json_safe`
unfoldable mutual
  pub json_safe : Value → Value
  json_safe (Value.dict fs) = Value.dict (json_safe_fields fs)
  json_safe (Value.items vs) = Value.items (json_safe_items vs)
  json_safe (Value.scalar s) = Value.printed s
  json_safe (Value.opaque n) = Value.printed_opaque n
  json_safe Value.null = Value.null
  json_safe (Value.flag b) = Value.flag b
  json_safe (Value.number n) = Value.number n
  json_safe (Value.text s) = Value.text s
  json_safe (Value.printed s) = Value.printed s
  json_safe (Value.printed_opaque n) = Value.printed_opaque n

  pub json_safe_items : Values → Values
  json_safe_items Values.nil = Values.nil
  json_safe_items (Values.cons v vs) = Values.cons (json_safe v) (json_safe_items vs)

  pub json_safe_fields : Fields → Fields
  json_safe_fields Fields.end = Fields.end
  json_safe_fields (Fields.field k v fs) =
      Fields.field k (if is_sensitive k then redacted else json_safe v) (json_safe_fields fs)

-- `add_audit_event`
unfoldable pub add_audit_event :
    AuditAction → EntityType → Option ℕ → Option User → Fields → Action ⊤
add_audit_event action entity_type entity_id actor details = modify λ d. record d {
  audits =
      d.audits
      ++ record {
        actor_id = elim actor [ some u ↦ some u.id | none ↦ none ];
        actor_role = elim actor [ some u ↦ some u.role | none ↦ none ];
        action = action;
        entity_type = entity_type;
        entity_id = entity_id;
        details = json_safe_fields details;
      }
        ∷ [];
}

-- Details are written field by field.
abbrev pub detail : String → Value → Fields → Fields
detail key v rest = Fields.field (codes key) v rest

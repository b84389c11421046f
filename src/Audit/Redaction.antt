-- ===== src/Audit/Redaction.antt =====
-- What `_json_safe` lets through.
use rental_property.Base.{
  ℕ, ◌≡◌, refl, Bool, true, false, if◌then◌else◌, arith, Option, All, All-append,
}
use rental_property.Models.{Value, Values, Fields, Db, User, AuditEvent, AuditAction, EntityType}
use rental_property.Action.{World, ok, ⊤}
use rental_property.Audit.Defs.{
  is_sensitive, redacted, json_safe, json_safe_items, json_safe_fields, add_audit_event,
}

-- At every depth, a field with a sensitive key holds the redacted text, and no value is left that
-- JSON cannot carry.
unfoldable mutual
  pub IsClean : Value → Type 0
  IsClean (Value.scalar s) = ⊥
  IsClean (Value.opaque n) = ⊥
  IsClean (Value.items vs) = AreCleanItems vs
  IsClean (Value.dict fs) = AreClean fs
  IsClean Value.null = ⊤
  IsClean (Value.flag b) = ⊤
  IsClean (Value.number n) = ⊤
  IsClean (Value.text s) = ⊤
  IsClean (Value.printed s) = ⊤
  IsClean (Value.printed_opaque n) = ⊤

  AreCleanItems : Values → Type 0
  AreCleanItems Values.nil = ⊤
  AreCleanItems (Values.cons v vs) = IsClean v × AreCleanItems vs

  pub AreClean : Fields → Type 0
  AreClean Fields.end = ⊤
  AreClean (Fields.field k v fs) = (is_sensitive k ≡ true → v ≡ redacted) × IsClean v × AreClean fs

field-IsClean :
    (sensitive : Bool) (v : Value)
    → IsClean v
    → (sensitive ≡ true → (if sensitive then redacted else v) ≡ redacted)
      × IsClean (if sensitive then redacted else v)
unfolding IsClean
field-IsClean true v h = (λ _. refl, tt)
field-IsClean false v h = (λ e. ground arith, h)

mutual
  unfolding IsClean json_safe

  json_safe-IsClean : (v : Value) → IsClean (json_safe v)
  json_safe-IsClean (Value.scalar s) = tt
  json_safe-IsClean (Value.opaque n) = tt
  json_safe-IsClean (Value.items vs) = json_safe_items-AreCleanItems vs
  json_safe-IsClean (Value.dict fs) = json_safe_dict-AreClean fs
  json_safe-IsClean Value.null = tt
  json_safe-IsClean (Value.flag b) = tt
  json_safe-IsClean (Value.number n) = tt
  json_safe-IsClean (Value.text s) = tt
  json_safe-IsClean (Value.printed s) = tt
  json_safe-IsClean (Value.printed_opaque n) = tt

  json_safe_items-AreCleanItems : (vs : Values) → AreCleanItems (json_safe_items vs)
  json_safe_items-AreCleanItems Values.nil = tt
  json_safe_items-AreCleanItems (Values.cons v vs) =
      (json_safe-IsClean v, json_safe_items-AreCleanItems vs)

  json_safe_dict-AreClean : (fs : Fields) → AreClean (json_safe_fields fs)
  json_safe_dict-AreClean Fields.end = tt
  json_safe_dict-AreClean (Fields.field k v fs) =
      let (masked, clean) = field-IsClean (is_sensitive k) (json_safe v) (json_safe-IsClean v) in
      (masked, clean, json_safe_dict-AreClean fs)

-- Every event of the table has clean details.
abbrev pub AuditsClean : Db → Type 0
AuditsClean d = All (λ (e : AuditEvent). AreClean e.details) d.audits

-- Recording an event always succeeds and commits nothing, and whatever its details are, it keeps
-- the audit table clean: at every depth each field with a sensitive key is redacted.
pub add_audit_event-AuditsClean :
    (action : AuditAction) (entity_type : EntityType) (entity_id : Option ℕ) (actor : Option User)
    (details : Fields) (w : World)
    → AuditsClean w.session
    → let (r, w') = add_audit_event action entity_type entity_id actor details w in
      (r ≡ ok tt) × (w'.committed ≡ w.committed) × AuditsClean w'.session
unfolding add_audit_event
add_audit_event-AuditsClean action entity_type entity_id actor details w h = (
  refl,
  refl,
  All-append (λ (e : AuditEvent). AreClean e.details) _ w.session.audits h
      (json_safe_dict-AreClean details),
)

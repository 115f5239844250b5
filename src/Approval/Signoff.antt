-- ===== src/Approval/Signoff.antt =====
-- Signoffs (approval/domain/signoff.go) and the separation of duties (approval/domain/sod.go).
-- A signature payload is a JSON text that is only passed on; a content hash is the list of its
-- bytes, since it is walked. An instant is a number, 0 for the zero `time.Time`.
pub mod Reload
pub mod Duties
use metal_docs.Prelude.{
  ℕ, ◌+◌, String, Bool, true, false, not, ◌&&◌, ◌||◌, Option, none, some, List, [], ◌∷◌, map,
}
use metal_docs.Prelude.Tests.{if◌then◌else◌, ◌==◌, leb}
use metal_docs.Prelude.Text.{str_eq}
use metal_docs.Prelude.Result.{Result, ok, err}
use metal_docs.Prelude.Lists.{any, length}

-- The Go type is a string: a value that is neither constant is `other`.
pub data Decision : Type 0 where
  approve reject : Decision
  other : String → Decision

pub record Signoff : Type 0 where
  pub id : String
  pub approval_instance_id : String
  pub stage_instance_id : String
  pub actor_user_id : String
  pub actor_tenant_id : String
  pub decision : Decision
  pub comment : String
  pub signed_at : ℕ
  pub signature_method : String
  pub signature_payload : String
  pub content_hash : List ℕ

pub record SignoffParams : Type 0 where
  pub id : String
  pub approval_instance_id : String
  pub stage_instance_id : String
  pub actor_user_id : String
  pub actor_tenant_id : String
  pub decision : Decision
  pub comment : String
  pub signed_at : ℕ
  pub signature_method : String
  pub signature_payload : String
  pub content_hash : List ℕ

-- The errors of `NewSignoff`, in the order of its tests.
pub data SignoffError : Type 0 where
  id_required instance_required stage_required actor_required tenant_required : SignoffError
  bad_decision zero_signed_at bad_content_hash : SignoffError

-- `strings.ToLower` on one byte. No letter outside ASCII has a hexadecimal digit for its lower
-- case, so what the hash test accepts does not depend on them.
unfoldable pub to_lower : ℕ → ℕ
to_lower c = if leb b'A' c && leb c b'Z' then c + 32 else c

-- The class [0-9a-f] of `hashRegex`.
unfoldable pub is_hex : ℕ → Bool
is_hex c = (leb b'0' c && leb c b'9') || (leb b'a' c && leb c b'f')

abbrev pub all_hex : List ℕ → Bool
all_hex [] = true
all_hex (c ∷ cs) = is_hex c && all_hex cs

-- `hashRegex.MatchString`: 64 characters of the class, and nothing else.
unfoldable pub is_hash : List ℕ → Bool
is_hash h = (length h == 64) && all_hex h

abbrev pub is_vote : Decision → Bool
is_vote approve = true
is_vote reject = true
is_vote (other _) = false

unfoldable pub new_signoff : SignoffParams → Result SignoffError Signoff
new_signoff p =
    if str_eq p.id ""
    then err id_required
    else if str_eq p.approval_instance_id ""
    then err instance_required
    else if str_eq p.stage_instance_id ""
    then err stage_required
    else if str_eq p.actor_user_id ""
    then err actor_required
    else if str_eq p.actor_tenant_id ""
    then err tenant_required
    else if not (is_vote p.decision)
    then err bad_decision
    else if p.signed_at == 0
    then err zero_signed_at
    else let hash = map to_lower p.content_hash in
      if not (is_hash hash)
      then err bad_content_hash
      else ok (record {
        id = p.id;
        approval_instance_id = p.approval_instance_id;
        stage_instance_id = p.stage_instance_id;
        actor_user_id = p.actor_user_id;
        actor_tenant_id = p.actor_tenant_id;
        decision = p.decision;
        comment = p.comment;
        signed_at = p.signed_at;
        signature_method = p.signature_method;
        signature_payload = p.signature_payload;
        content_hash = hash;
      })

pub data DutyError : Type 0 where
  author_cannot_sign actor_already_signed : DutyError

-- `CheckSoD`; `none` is no error.
unfoldable pub check_sod : String → String → List Signoff → Option DutyError
check_sod author actor prior =
    if str_eq actor author
    then some author_cannot_sign
    else if any (λ (s : Signoff). str_eq s.actor_user_id actor) prior
    then some actor_already_signed
    else none

-- ===== src/Approval/Signoff/Reload.antt =====
-- What `NewSignoff` (approval/domain/signoff.go) guarantees.
use metal_docs.Prelude.{
  ℕ, ◌<◌, ◌≡◌, ◌≢◌, ◌⊎◌, inl, inr, ◌↔◌, refl, true, false, not, List, [], ◌∷◌, map, arith,
}
use metal_docs.Prelude.Text.{str_eq, str_ne, ne_of_str}
use metal_docs.Prelude.Result.{ok, ok-injective, past_guard}
use metal_docs.Prelude.Tests.{◌==◌}
use metal_docs.Prelude.Lists.{length}
use metal_docs.Approval.Signoff.{
  Decision, approve, reject, other, is_vote, id_required, instance_required, stage_required,
  actor_required, tenant_required, bad_decision, zero_signed_at, bad_content_hash, Signoff,
  SignoffParams, to_lower, is_hex, all_hex, is_hash, new_signoff,
}

pub record IsComplete (s : Signoff) : Type 0 where
  pub has_id : s.id ≢ ""
  pub has_instance : s.approval_instance_id ≢ ""
  pub has_stage : s.stage_instance_id ≢ ""
  pub has_actor : s.actor_user_id ≢ ""
  pub has_tenant : s.actor_tenant_id ≢ ""
  pub voted : (s.decision ≡ approve) ⊎ (s.decision ≡ reject)
  pub signed : 0 < s.signed_at
  pub hash_length : length s.content_hash ≡ 64
  pub hash_hex : all_hex s.content_hash ≡ true

-- The parameters that the repository's scans rebuild from a stored row.
abbrev pub params_of : Signoff → SignoffParams
params_of s = record {
  id = s.id;
  approval_instance_id = s.approval_instance_id;
  stage_instance_id = s.stage_instance_id;
  actor_user_id = s.actor_user_id;
  actor_tenant_id = s.actor_tenant_id;
  decision = s.decision;
  comment = s.comment;
  signed_at = s.signed_at;
  signature_method = s.signature_method;
  signature_payload = s.signature_payload;
  content_hash = s.content_hash;
}

to_lower_of_hex : (c : ℕ) → is_hex c ≡ true → to_lower c ≡ c
unfolding to_lower is_hex
to_lower_of_hex c h = ground arith

signed_nonzero : (n : ℕ) → 0 < n → (n == 0) ≡ false
signed_nonzero n h = ground arith

map-to_lower_of_hex : (h : List ℕ) → all_hex h ≡ true → map to_lower h ≡ h
map-to_lower_of_hex [] e = refl
map-to_lower_of_hex (c ∷ h) e = ground (arith, to_lower_of_hex c, map-to_lower_of_hex h)

vote_cases : (d : Decision) → not (is_vote d) ≡ false → (d ≡ approve) ⊎ (d ≡ reject)
vote_cases approve h = inl refl
vote_cases reject h = inr refl
vote_cases (other _) h = cc

is_vote_of : (d : Decision) → (d ≡ approve) ⊎ (d ≡ reject) → not (is_vote d) ≡ false
is_vote_of d (inl e) = rw e
is_vote_of d (inr e) = rw e

is_hash_iff : (h : List ℕ) → (is_hash h ≡ true) ↔ ((length h ≡ 64) × (all_hex h ≡ true))
unfolding is_hash
is_hash_iff h = ground arith

-- Every field that the constructor requires is present, the decision is a vote, and the hash is
-- 64 lower-case hexadecimal digits.
pub new_signoff-IsComplete : (p : SignoffParams) (s : Signoff) → new_signoff p ≡ ok s → IsComplete s
unfolding new_signoff
new_signoff-IsComplete p s h0 =
    let (id, h1) = past_guard (str_eq p.id "") id_required _ h0 in
    let (inst, h2) = past_guard (str_eq p.approval_instance_id "") instance_required _ h1 in
    let (stage, h3) = past_guard (str_eq p.stage_instance_id "") stage_required _ h2 in
    let (actor, h4) = past_guard (str_eq p.actor_user_id "") actor_required _ h3 in
    let (tenant, h5) = past_guard (str_eq p.actor_tenant_id "") tenant_required _ h4 in
    let (vote, h6) = past_guard (not (is_vote p.decision)) bad_decision _ h5 in
    let (signed, h7) = past_guard (p.signed_at == 0) zero_signed_at _ h6 in
    let (hash, h8) =
      past_guard (not (is_hash (map to_lower p.content_hash))) bad_content_hash _ h7 in
    let e = ok-injective h8 in
    let good = (is_hash_iff (map to_lower p.content_hash)).0 (ground arith) in
    rw (← e) (record {
      has_id = ne_of_str p.id "" id;
      has_instance = ne_of_str p.approval_instance_id "" inst;
      has_stage = ne_of_str p.stage_instance_id "" stage;
      has_actor = ne_of_str p.actor_user_id "" actor;
      has_tenant = ne_of_str p.actor_tenant_id "" tenant;
      voted = vote_cases p.decision vote;
      signed = ground arith;
      hash_length = good.0;
      hash_hex = good.1;
    })

-- A complete signoff is built again from its own fields.
pub new_signoff_of_complete : (s : Signoff) → IsComplete s → new_signoff (params_of s) ≡ ok s
unfolding new_signoff
new_signoff_of_complete s c = rw (
  str_ne s.id "" c.has_id,
  str_ne s.approval_instance_id "" c.has_instance,
  str_ne s.stage_instance_id "" c.has_stage,
  str_ne s.actor_user_id "" c.has_actor,
  str_ne s.actor_tenant_id "" c.has_tenant,
  is_vote_of s.decision c.voted,
  signed_nonzero s.signed_at c.signed,
  map-to_lower_of_hex s.content_hash c.hash_hex,
  (is_hash_iff s.content_hash).1 (c.hash_length, c.hash_hex),
)

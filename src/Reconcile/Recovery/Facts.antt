-- ===== src/Reconcile/Recovery/Facts.antt =====
-- What the checks of a pending operation say of its command and its receipt.
use frame_tv_art_manager.Prelude.{
  ℕ, Text, ◌=ₜ◌, ◌≡◌, ◌<◌, refl, true, false, arith, none, some, is_blank, is_trimmed, Option, base,
  if◌then◌else◌,
}
use frame_tv_art_manager.Prelude.Hex.{valid_digest}
use frame_tv_art_manager.Reconcile.Types.{
  Phase, Pending, CommandIntent, CommandKind, ReceiptSummary,
}
use frame_tv_art_manager.Reconcile.Validate.{
  binding_valid, pending_valid, intent_valid, intent_valid_as, phase_valid,
}
use frame_tv_art_manager.Reconcile.Recovery.{applied_content, is_applied, upload_binding}

pub intent_as :
    (p : Pending) → pending_valid p ≡ true → intent_valid_as p.command.kind p.command ≡ true
unfolding pending_valid intent_valid
intent_as p v = ground arith

collection_gen-valid : (p : Pending) → pending_valid p ≡ true → valid_digest p.collection_gen ≡ true
unfolding pending_valid
collection_gen-valid p v = ground arith

upload-digest :
    (i : CommandIntent)
    → intent_valid_as CommandKind.upload i ≡ true
    → (valid_digest i.digest ≡ true) × ((base i.name =ₜ i.name) ≡ true) × (is_blank i.name ≡ false)
unfolding intent_valid_as
upload-digest i v = ground arith

pub deletion-digest :
    (i : CommandIntent)
    → intent_valid_as CommandKind.delete_owned i ≡ true
    → valid_digest i.digest ≡ true
unfolding intent_valid_as
deletion-digest i v = ground arith

pub upload-binding_valid :
    (p : Pending) (id : Text) (now : ℕ)
    → pending_valid p ≡ true
    → intent_valid_as CommandKind.upload p.command ≡ true
    → is_blank id ≡ false
    → is_trimmed id ≡ true
    → 0 < now
    → binding_valid p.command.digest (upload_binding p id now) ≡ true
unfolding binding_valid upload_binding
upload-binding_valid p id now v i b t n =
    ground (arith, upload-digest p.command i, collection_gen-valid p v)

pub phase-valid : (p : Pending) → pending_valid p ≡ true → phase_valid p.phase p.receipt ≡ true
unfolding pending_valid
phase-valid p v = ground arith

-- Only an operation in the phase `applied` has a receipt that says so.
pub unproven-content :
    (phase : Phase) (receipt : Option ReceiptSummary)
    → phase_valid phase receipt ≡ true
    → (if is_applied phase then applied_content receipt else none) ≡ none
    → applied_content receipt ≡ none
unfolding phase_valid
unproven-content phase none v e = refl
unproven-content Phase.applied (some r) v e = e
unproven-content Phase.outcome_unknown (some r) v e = ground arith
unproven-content Phase.prepared (some r) v e = ground arith
unproven-content (Phase.invalid n) (some r) v e = ground arith

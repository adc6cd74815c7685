-- ===== src/Web/Commitments/Trials.antt =====
-- web/src/patch-comparison.ts: a patch of 40 characters, anchored on the way of a report.
use vulnseal.Prelude.{◌≡◌, ◌=ᵇ◌, refl, Bytes, All, lookup, some, ok, replicate, arith}
use vulnseal.Contract.Types.{ReportRecord, pad32}
use vulnseal.Contract.Circuits.{
  derive_report_commitment, derive_vendor_key, derive_patch_commitment, anchor_patch,
}
use vulnseal.Contract.Lifecycle.{ledger_3, ledger_4}
use vulnseal.Contract.Sample.{toy, bytes, id, vendor, journey}
use vulnseal.Shared.Hex.{Text, IsByte, bytes_to_hex}
use vulnseal.Shared.Sample
use vulnseal.Web.Commitments.{saved_patch_commitment}
use vulnseal.Web.Commitments.Mirror.{saved_patch_commitment-anchor_patch}

abbrev text : Text
text = replicate 40 120

abbrev patch : Bytes
patch = derive_patch_commitment toy id (bytes 40)

anchors : anchor_patch toy id vendor (ledger_3 journey) ≡ ok (patch, ledger_4 journey)
unfolding derive_report_commitment derive_patch_commitment derive_vendor_key anchor_patch pad32 ◌=ᵇ◌
anchors = refl

id-IsByte : All IsByte id
unfolding derive_report_commitment pad32
id-IsByte = ground arith

saved_patch_commitment-anchor_patch_example :
    (saved_patch_commitment Sample.toy toy (bytes_to_hex id) text ≡ ok (bytes_to_hex patch))
    × ((r : ReportRecord) × (lookup id (ledger_4 journey).reports ≡ some r)
        × (r.patch_commitment ≡ patch))
saved_patch_commitment-anchor_patch_example =
    saved_patch_commitment-anchor_patch Sample.toy toy id text vendor (ledger_3 journey) refl
      id-IsByte refl anchors

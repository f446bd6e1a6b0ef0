-- ===== src/AudioQa/Model/Reference/Stable.antt =====
-- What the materials of a well-formed reference prove (tools/audio_qa/reference_model.cpp).
use ayther_runtime.Prelude.{◌≡◌, ◌⊎◌, true, false, Option, arith, All, All-map, is_some}
use ayther_runtime.AudioQa.Model.{all}
use ayther_runtime.AudioQa.Model.Initial.Complete.{all-All}
use ayther_runtime.AudioQa.Model.Reference.{
  Material, Reference, unverified, verified, changed, Stability, attributed, same_content,
  stability_fits, valid, well_formed_material, well_formed_reference,
}

-- A claim about a material's stability is backed: it is attributed, both contents are known, and they
-- are the same if the claim is that it is stable, and different if the claim is that it changed.
abbrev pub IsBacked : Stability → Material → Type 0
IsBacked unverified m = Unit {0}
IsBacked verified m =
    (attributed m.stability_provenance ≡ true)
    × (is_some m.identified.value ≡ true)
    × (is_some m.consumed.value ≡ true)
    × (same_content m.identified.value m.consumed.value ≡ true)
IsBacked changed m =
    (attributed m.stability_provenance ≡ true)
    × (is_some m.identified.value ≡ true)
    × (is_some m.consumed.value ≡ true)
    × (same_content m.identified.value m.consumed.value ≡ false)

-- A content that is given says where it comes from.
abbrev pub KnowsOrigin : Material → Type 0
KnowsOrigin m =
    ((m.identified.value ≡ Option.none) ⊎ (attributed m.identified.provenance ≡ true))
    × ((m.consumed.value ≡ Option.none) ⊎ (attributed m.consumed.provenance ≡ true))

stability-IsBacked : (s : Stability) (m : Material) → stability_fits s m ≡ true → IsBacked s m
unfolding stability_fits
stability-IsBacked unverified m h = tt
stability-IsBacked verified m h = ground arith
stability-IsBacked changed m h = ground arith

material_holds :
    (m : Material) → well_formed_material m ≡ true → IsBacked m.stability m × KnowsOrigin m
unfolding well_formed_material valid
material_holds m h =
    let s : stability_fits m.stability m ≡ true = ground arith in
    (stability-IsBacked m.stability m s, ground arith)

-- In a well-formed reference, every material whose stability is claimed backs the claim with an
-- attributed statement and two contents that are the same or different as claimed, and no content is
-- given without its origin.
pub materials-IsBacked :
    (r : Reference)
    → well_formed_reference r ≡ true
    → All (λ m. IsBacked m.stability m × KnowsOrigin m) r.materials
unfolding well_formed_reference
materials-IsBacked r h =
    let a : all well_formed_material r.materials ≡ true = ground arith in
    All-map material_holds r.materials (all-All well_formed_material r.materials a)

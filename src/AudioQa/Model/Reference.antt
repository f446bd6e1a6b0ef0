-- ===== src/AudioQa/Model/Reference.antt =====
-- tools/audio_qa/reference_model.h and reference_model.cpp: what a reference execution used, and
-- where each statement about it comes from.
pub mod Stable
use Prim.Native.String.{String, len}
use ayther_runtime.Prelude.{
  ℕ, Bool, true, false, not, ◌&&◌, ◌||◌, Option, none, some, List, [], ◌∷◌, length, leb, ◌==◌,
  is_some,
}
use ayther_runtime.AudioQa.Model.{ContentIdentity, identifier, unless_absent, all}

abbrev pub max_reference_materials : ℕ
max_reference_materials = 4096

abbrev pub max_reference_conditions : ℕ
max_reference_conditions = 256

abbrev pub max_reference_differences : ℕ
max_reference_differences = 256

abbrev pub max_reference_value_bytes : ℕ
max_reference_value_bytes = 4096

pub data Origin : Type 0 where
  unknown user_declaration configuration artifact_manifest content_measurement : Origin
  runtime_observation : Origin

pub record Provenance : Type 0 where
  pub origin : Origin
  pub evidence_id : String

pub record Recorded (T : Type 0) : Type 0 where
  pub value : Option T
  pub provenance : Provenance

pub data MaterialRole : Type 0 where
  rom core pack take external_asset engine_build runtime_build : MaterialRole

pub data Stability : Type 0 where
  unverified verified changed : Stability

pub record Material : Type 0 where
  pub material_id : String
  pub role : MaterialRole
  pub source_locator : Recorded String
  pub format_version : Recorded String
  pub identified : Recorded ContentIdentity
  pub consumed : Recorded ContentIdentity
  pub stability : Stability
  pub stability_provenance : Provenance

pub record BuildReference : Type 0 where
  pub artifact : Recorded ContentIdentity
  pub release : Recorded String
  pub commit : Recorded String
  pub variant : Recorded String
  pub abi : Recorded String

pub data ReferenceRole : Type 0 where
  initial extended : ReferenceRole

pub record EffectiveCondition : Type 0 where
  pub key : String
  pub value : Recorded String

pub record Reference : Type 0 where
  pub baseline_id : String
  pub execution_reference_id : String
  pub role : ReferenceRole
  pub engine : BuildReference
  pub runtime : BuildReference
  pub conditions_manifest_id : Recorded String
  pub conditions : List EffectiveCondition
  pub materials : List Material
  pub declared_differences : List (Recorded String)

abbrev pub is_unknown : Origin → Bool
is_unknown unknown = true
is_unknown o = false

-- The origin is one of the enumeration, so it is at most the last one.
pub attributed : Provenance → Bool
attributed source = not (is_unknown source.origin) && identifier source.evidence_id

-- An unknown origin with no evidence.
pub unattributed : Provenance → Bool
unattributed source = is_unknown source.origin && (len source.evidence_id == 0)

pub valid : {T : Type 0} → Recorded T → Bool
valid field =
    (not (is_some field.value) && unattributed field.provenance) || attributed field.provenance

pub valid_text : Recorded String → Bool
valid_text field =
    valid field && unless_absent field.value (λ v. leb (len v) max_reference_value_bytes)

pub valid_build : BuildReference → Bool
valid_build build =
    valid build.artifact
    && (valid_text build.release
        && (valid_text build.commit && (valid_text build.variant && valid_text build.abi)))

abbrev pub same_bytes : List ℕ → List ℕ → Bool
same_bytes [] [] = true
same_bytes [] (y ∷ ys) = false
same_bytes (x ∷ xs) [] = false
same_bytes (x ∷ xs) (y ∷ ys) = (x == y) && same_bytes xs ys

-- `identified.value == consumed.value`, of two values that are there.
pub same_content : Option ContentIdentity → Option ContentIdentity → Bool
same_content (some a) (some b) = same_bytes a.sha256 b.sha256 && (a.byte_size == b.byte_size)
same_content (some a) none = false
same_content none (some b) = false
same_content none none = true

-- The switch on the stability.
pub stability_fits : Stability → Material → Bool
stability_fits unverified m =
    unattributed m.stability_provenance || attributed m.stability_provenance
stability_fits verified m =
    attributed m.stability_provenance
    && (is_some m.identified.value
        && (is_some m.consumed.value && same_content m.identified.value m.consumed.value))
stability_fits changed m =
    attributed m.stability_provenance
    && (is_some m.identified.value
        && (is_some m.consumed.value && not (same_content m.identified.value m.consumed.value)))

pub well_formed_material : Material → Bool
well_formed_material m =
    identifier m.material_id
    && (valid_text m.source_locator
        && (valid_text m.format_version
            && (valid m.identified && (valid m.consumed && stability_fits m.stability m))))

pub condition_fits : EffectiveCondition → Bool
condition_fits c = identifier c.key && valid_text c.value

pub well_formed_reference : Reference → Bool
well_formed_reference r =
    identifier r.baseline_id
    && (identifier r.execution_reference_id
        && (leb (length r.materials) max_reference_materials
            && (leb (length r.conditions) max_reference_conditions
                && (leb (length r.declared_differences) max_reference_differences
                    && (valid_build r.engine
                        && (valid_build r.runtime
                            && (valid_text r.conditions_manifest_id
                                && (all well_formed_material r.materials
                                    && (all condition_fits r.conditions
                                        && all valid_text r.declared_differences)))))))))

-- ===== src/Loader/Validator/Whole/Exports.antt =====
-- Which exports the validator accepts.
use text.Mathlib.Text.{◌==◌ as is_string}
use wasmtiny.Base.{◌<◌, ◌≡◌, ◌≢◌, ◌↔◌, refl, Bool, true, false, List, [], ◌∷◌, String}
use wasmtiny.Runtime.Module.{Module, ExportType, ExportKind}
use wasmtiny.Loader.Validator.{Checked, ok, err, panic, stuck}
use wasmtiny.Loader.Validator.Sections.{done, refuse_if, ◌>>◌}
use wasmtiny.Loader.Validator.Whole.{function_space, table_space, memory_space, global_space}

-- Both parts of an accepted sequence are accepted.
pub both_done_iff : (m n : Checked (Unit {0})) → ((m >> n) ≡ done) ↔ ((m ≡ done) × (n ≡ done))
both_done_iff (ok tt) n = (λ e. (refl, e), λ e. e.1)
both_done_iff (err x) n = (λ e. absurd cc, λ e. absurd cc)
both_done_iff panic n = (λ e. absurd cc, λ e. absurd cc)
both_done_iff stuck n = (λ e. absurd cc, λ e. absurd cc)

pub refuse_if_iff : (b : Bool) (message : String) → (refuse_if b message ≡ done) ↔ (b ≡ false)
refuse_if_iff true message = (λ e. absurd cc, λ e. absurd cc)
refuse_if_iff false message = (λ e. refl, λ e. refl)

-- The index lies in the index space of the kind. Tags have none.
abbrev pub InSpace : Module → ExportKind → Type 0
InSpace m (ExportKind.func idx) = idx < function_space m
InSpace m (ExportKind.table idx) = idx < table_space m
InSpace m (ExportKind.memory idx) = idx < memory_space m
InSpace m (ExportKind.global idx) = idx < global_space m
InSpace m (ExportKind.tag idx) = Unit

-- None of the names is the given one.
abbrev pub IsNew : String → List String → Type 0
IsNew name [] = Unit
IsNew name (s ∷ seen) = (s ≢ name) × IsNew name seen

-- The exports are new, different from each other, and in their spaces.
abbrev pub AreExportable : Module → List String → List ExportType → Type 0
AreExportable m seen [] = Unit
AreExportable m seen (e ∷ exports) =
    IsNew e.name seen × InSpace m e.kind × AreExportable m (e.name ∷ seen) exports

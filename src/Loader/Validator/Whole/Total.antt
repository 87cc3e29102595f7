-- ===== src/Loader/Validator/Whole/Total.antt =====
-- crates/core/src/loader/validator.rs: how `validate` ends.
use wasmtiny.Base.{
  ℕ, Bool, true, false, Option, none, some, List, [], ◌∷◌, ◌++◌, String, ◌≡◌, ◌≢◌, refl, not,
}
use wasmtiny.Runtime.Types.{
  FunctionType, ValType, Limits, MemoryType, TableType, GlobalType, val_type_eq,
}
use wasmtiny.Runtime.Module.{
  Module, Func, ImportKind, ExportType, ExportKind, DataKind, ElemSegment, ElemKind, type_at,
  table_at, memory_import, func_type,
}
use wasmtiny.Loader.Validator.{Checked, ok, err, panic, stuck, BodyState}
use wasmtiny.Loader.Validator.Body.{validate_function_body}
use wasmtiny.Loader.Validator.References.Declared.{AreEnded}
use wasmtiny.Loader.Validator.Body.Settled.{validate_function_body-total}
use wasmtiny.Loader.Validator.ConstExpr.{validate_const_expr}
use wasmtiny.Loader.Validator.ConstExpr.Forward.{Returns}
use wasmtiny.Loader.Validator.ConstExpr.Total.{then-Returns, validate_const_expr-Returns}
use wasmtiny.Loader.Validator.Sections.{
  refuse_if, ◌>>◌, for_each, function_ok, import_ok, validate_functions, forget, body_ok,
  validate_imports, validate_instruction_set, validate_tables, validate_memories, memory_ok,
  pages_ok, shared_import_ok, typed_as, globals_loop, validate_globals, data_ok, validate_data,
  table_fits, elem_target_ok, elem_ok, validate_elems,
}
use wasmtiny.Loader.Validator.Whole.{
  export_ok, exports_loop, validate_exports, start_type_ok, start_ok, import_pages_ok,
  validate_start, validate,
}

pub refuse-Returns : (b : Bool) (message : String) → Returns (refuse_if b message)
unfolding Returns
refuse-Returns true message = tt
refuse-Returns false message = tt

pub seq-Returns : (m n : Checked (Unit {0})) → Returns m → Returns n → Returns (m >> n)
seq-Returns m n p q = then-Returns m (λ _. n) p (λ _ _. q)

pub for_each-Returns :
    {A : Type 0} (check : A → Checked (Unit {0})) (xs : List A)
    → ((x : A) → Returns (check x))
    → Returns (for_each check xs)
unfolding for_each
for_each-Returns check [] p = unfold Returns in tt
for_each-Returns check (x ∷ xs) p =
    seq-Returns (check x) (for_each check xs) (p x) (for_each-Returns check xs p)

settled-Returns : (out : Checked BodyState) → out ≢ panic → out ≢ stuck → Returns (forget out)
unfolding Returns
settled-Returns (ok s) p q = tt
settled-Returns (err e) p q = tt
settled-Returns panic p q = absurd (p refl)
settled-Returns stuck p q = absurd (q refl)

body-Returns :
    (allocates : ℕ → Bool) (m : Module) (f : Func) (o : Option FunctionType)
    → ((n : ℕ) → allocates n ≡ true)
    → AreEnded m.elems
    → Returns (body_ok allocates m f o)
body-Returns allocates m f none granted short = unfold Returns in tt
body-Returns allocates m f (some t) granted short =
    let (no_panic, ended) = validate_function_body-total allocates m f t granted short in
    settled-Returns (validate_function_body allocates m f t) no_panic ended

import-Returns : (m : Module) (kind : ImportKind) → Returns (import_ok m kind)
import-Returns m (ImportKind.func type_idx) = refuse-Returns _ _
import-Returns m _ = unfold Returns in tt

pages-Returns : (limits : Limits) → Returns (pages_ok limits)
pages-Returns (Limits.min_only lo) = refuse-Returns _ _
pages-Returns (Limits.min_max lo hi) =
    seq-Returns _ _ (seq-Returns _ _ (refuse-Returns _ _) (refuse-Returns _ _)) (refuse-Returns _ _)

memory-Returns : (memory : MemoryType) → Returns (memory_ok memory)
memory-Returns memory = seq-Returns _ _ (pages-Returns memory.limits) (refuse-Returns _ _)

shared_import-Returns : (o : Option MemoryType) → Returns (shared_import_ok o)
shared_import-Returns none = unfold Returns in tt
shared_import-Returns (some memory) = refuse-Returns _ _

typed-Returns :
    (m : Module) (expr : List ℕ) (globals : List GlobalType) (t : ValType) (message : String)
    → Returns (typed_as m expr globals t message)
typed-Returns m expr globals t message =
    then-Returns (validate_const_expr m expr globals)
      (λ u. refuse_if (not (val_type_eq u t)) message) (validate_const_expr-Returns m expr globals)
      (λ u _. refuse-Returns _ _)

globals-Returns :
    (m : Module) (inits : List (List ℕ)) (available globals : List GlobalType)
    → Returns (globals_loop m inits available globals)
unfolding globals_loop
globals-Returns m inits available [] = unfold Returns in tt
globals-Returns m [] available (g ∷ globals) = unfold Returns in tt
globals-Returns m (init ∷ inits) available (g ∷ globals) =
    seq-Returns _ _ (typed-Returns m init available g.content_type _)
      (globals-Returns m inits (available ++ (g ∷ [])) globals)

data-Returns : (m : Module) (kind : DataKind) → Returns (data_ok m kind)
data-Returns m (DataKind.active memory_idx offset) =
    seq-Returns _ _ (refuse-Returns _ _) (typed-Returns m offset _ _ _)
data-Returns m DataKind.passive = unfold Returns in tt

fits-Returns : (segment : ElemSegment) (o : Option TableType) → Returns (table_fits segment o)
fits-Returns segment none = unfold Returns in tt
fits-Returns segment (some table) = refuse-Returns _ _

target-Returns :
    (m : Module) (segment : ElemSegment) (kind : ElemKind) → Returns (elem_target_ok m segment kind)
target-Returns m segment (ElemKind.active table_idx offset) =
    seq-Returns _ _ (seq-Returns _ _ (refuse-Returns _ _) (typed-Returns m offset _ _ _))
      (fits-Returns segment (table_at m table_idx))
target-Returns m segment _ = unfold Returns in tt

elem-Returns : (m : Module) (segment : ElemSegment) → Returns (elem_ok m segment)
elem-Returns m segment =
    seq-Returns _ _ (target-Returns m segment segment.kind)
      (for_each-Returns _ segment.init (λ expr. typed-Returns m expr _ _ _))

export-Returns : (m : Module) (kind : ExportKind) → Returns (export_ok m kind)
export-Returns m (ExportKind.tag idx) = unfold Returns in tt
export-Returns m (ExportKind.func idx) = refuse-Returns _ _
export-Returns m (ExportKind.table idx) = refuse-Returns _ _
export-Returns m (ExportKind.memory idx) = refuse-Returns _ _
export-Returns m (ExportKind.global idx) = refuse-Returns _ _

exports-Returns :
    (m : Module) (seen : List String) (exports : List ExportType)
    → Returns (exports_loop m seen exports)
unfolding exports_loop
exports-Returns m seen [] = unfold Returns in tt
exports-Returns m seen (e ∷ exports) =
    seq-Returns _ _ (seq-Returns _ _ (refuse-Returns _ _) (export-Returns m e.kind))
      (exports-Returns m (e.name ∷ seen) exports)

start_type-Returns : (o : Option FunctionType) → Returns (start_type_ok o)
start_type-Returns none = unfold Returns in tt
start_type-Returns (some t) = refuse-Returns _ _

start-Returns : (m : Module) (o : Option ℕ) → Returns (start_ok m o)
start-Returns m none = unfold Returns in tt
start-Returns m (some idx) =
    seq-Returns _ _ (refuse-Returns _ _) (start_type-Returns (func_type m idx))

import_pages-Returns : (o : Option MemoryType) → Returns (import_pages_ok o)
import_pages-Returns none = unfold Returns in tt
import_pages-Returns (some memory) = pages-Returns memory.limits

-- The validator accepts or refuses every module, whatever its sections hold: every loop ends,
-- nothing that is missing is unwrapped or indexed, and no shift is by 32 bits or more. (The
-- allocator grants what a `br_table` asks for, and the indices behind the `ref.func`s of the
-- element segments have at most five bytes, as those that the parser reads have.)
pub validate-Returns :
    (allocates : ℕ → Bool) (m : Module)
    → ((n : ℕ) → allocates n ≡ true)
    → AreEnded m.elems
    → Returns (validate allocates m)
unfolding validate validate_imports validate_functions validate_instruction_set validate_tables
    validate_memories validate_globals validate_data validate_elems validate_exports validate_start
validate-Returns allocates m granted ended =
    let imports =
      for_each-Returns (λ i. import_ok m i.kind) m.imports (λ i. import-Returns m i.kind) in
    let functions = for_each-Returns (function_ok m) m.funcs (λ f. refuse-Returns _ _) in
    let bodies =
      for_each-Returns (λ f. body_ok allocates m f (type_at m f.type_idx)) m.funcs
        (λ f. body-Returns allocates m f (type_at m f.type_idx) granted ended) in
    let tables = for_each-Returns _ m.tables (λ t. refuse-Returns _ _) in
    let memories =
      seq-Returns _ _
        (seq-Returns _ _ (refuse-Returns _ _)
          (for_each-Returns memory_ok m.memories memory-Returns))
        (for_each-Returns _ m.imports (λ i. shared_import-Returns (memory_import i.kind))) in
    let start =
      seq-Returns _ _ (start-Returns m m.start)
        (for_each-Returns _ m.imports (λ i. import_pages-Returns (memory_import i.kind))) in
    seq-Returns _ _
      (seq-Returns _ _
        (seq-Returns _ _
          (seq-Returns _ _
            (seq-Returns _ _
              (seq-Returns _ _
                (seq-Returns _ _ (seq-Returns _ _ (seq-Returns _ _ imports functions) bodies)
                  tables)
                memories)
              (globals-Returns m _ _ m.globals))
            (for_each-Returns _ m.segments (λ s. data-Returns m s.kind)))
          (for_each-Returns (elem_ok m) m.elems (elem-Returns m)))
        (exports-Returns m [] m.exports))
      start

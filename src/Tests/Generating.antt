-- ===== src/Tests/Generating.antt =====
-- The dispatch table of a policy with one interface: it needs a member, AddRef and Release, and one
-- member is skipped.
use webgpu_native_js.Prelude.{String, ◌≡◌, refl, ◌⊎◌, false, none, some, List, [], ◌∷◌, map, All}
use webgpu_native_js.Codegen.{
  Name, chars, snake_from, snake_case, pascal_case, c_type_name, c_function_name,
}
use webgpu_native_js.Codegen.Dispatch.{
  done, failed, duplicate_symbol, DispatchEntry, YamlFunction, YamlRoot, unary_entry, get,
  insert_entry, dispatch_registry,
}
use webgpu_native_js.Codegen.Dispatch.Registered.{declared, Fresh, pushed, dispatch_registry_lem}
use webgpu_native_js.Codegen.Policy.{
  require_reason, collect, required_extra_symbols, required_skipped_members,
  validate_dispatch_policy,
}
use webgpu_native_js.Codegen.Policy.Validated.{IsAccounted, validate_dispatch_policy_lem}
use webgpu_native_js.Codegen.Selection.{
  TypePair, SubsetEntry, DispatchPolicy, contains, push_symbol, selected_entries,
}
use webgpu_native_js.Codegen.Selection.Pushed.{symbols, Apart}
use webgpu_native_js.Codegen.Selection.Needed.{needed, selected_entries_lem}

pascal : pascal_case (chars "compute_pass_encoder") ≡ chars "ComputePassEncoder"
unfolding pascal_case
pascal = refl

snake : snake_case (chars "DeviceGetURLInfo") ≡ chars "device_get_url_info"
unfolding snake_case snake_from
snake = refl

abbrev unmap : YamlFunction
unmap = record { name = chars "unmap"; returns = none; args = []; callback = none }

abbrev yaml : YamlRoot
yaml = record {
  structs = record { name = chars "limits"; free_members = false } ∷ [];
  functions = [];
  objects = record { name = chars "buffer"; methods = unmap ∷ [] } ∷ [];
}

abbrev buffer_entry : String → DispatchEntry
buffer_entry symbol = unary_entry (chars "buffer") (chars symbol)

abbrev registry : List DispatchEntry
registry =
    buffer_entry "wgpuBufferRelease"
    ∷ buffer_entry "wgpuBufferAddRef"
    ∷ buffer_entry "wgpuBufferUnmap"
    ∷ []

registers : dispatch_registry yaml ≡ done registry
unfolding dispatch_registry insert_entry snake_case snake_from pascal_case c_type_name
    c_function_name
registers = refl

dispatch_registry_lem_example :
    ((r : List DispatchEntry) × (dispatch_registry yaml ≡ done r)
      × Fresh [] (declared yaml)
      × (r ≡ pushed [] (declared yaml))
      × All (λ e. get r e.symbol ≡ some e) (declared yaml))
    ⊎ ((symbol : Name) × (dispatch_registry yaml ≡ failed (duplicate_symbol symbol))
        × ¬ Fresh [] (declared yaml))
dispatch_registry_lem_example = dispatch_registry_lem yaml

abbrev interfaces : List TypePair
interfaces =
    record {
      idl_name = some (chars "GPUBuffer");
      c_name = some (chars "WGPUBuffer");
      members = record { member = chars "unmap"; c_name = chars "wgpuBufferUnmap" } ∷ [];
    }
    ∷ []

abbrev subset : List SubsetEntry
subset = record { interface = chars "GPUBuffer"; members = chars "size" ∷ chars "unmap" ∷ [] } ∷ []

abbrev policy : DispatchPolicy
policy = record {
  skip_members =
      record { interface = chars "GPUBuffer"; member = chars "size"; reason = chars "a field" }
      ∷ [];
  add_ref = record { interface = chars "GPUBuffer"; reason = chars "shared" } ∷ [];
  no_add_ref = [];
  extra_symbols = record { symbol = chars "wgpuBufferUnmap"; reason = chars "called" } ∷ [];
}

abbrev table : List DispatchEntry
table =
    buffer_entry "wgpuBufferUnmap"
    ∷ buffer_entry "wgpuBufferAddRef"
    ∷ buffer_entry "wgpuBufferRelease"
    ∷ []

selects : selected_entries interfaces subset policy registry ≡ done table
unfolding selected_entries push_symbol
selects = refl

selected_entries_lem_example :
    (names : List Name) × (needed interfaces subset policy ≡ done names)
    × All (λ e. get registry e.symbol ≡ some e) table
    × Apart (symbols table)
    × ((n : Name) → contains n (symbols table) ≡ contains n names)
selected_entries_lem_example = selected_entries_lem interfaces subset policy registry table selects

abbrev whole_policy : DispatchPolicy
whole_policy = record {
  skip_members =
      map (λ (p : Name × Name). record { interface = p.0; member = p.1; reason = chars "a field" })
        required_skipped_members;
  add_ref = [];
  no_add_ref = record { interface = chars "GPUBuffer"; reason = chars "owned" } ∷ [];
  extra_symbols =
      map (λ (s : Name). record { symbol = s; reason = chars "called" }) required_extra_symbols;
}

abbrev joined : List TypePair
joined =
    record {
      idl_name = some (chars "GPUBuffer");
      c_name = some (chars "WGPUBuffer");
      members =
          map (λ (p : Name × Name). record { member = p.1; c_name = chars "wgpuBufferGet" })
            required_skipped_members;
    }
    ∷ []

abbrev extra_registry : List DispatchEntry
extra_registry = map (unary_entry (chars "adapter")) required_extra_symbols

validates : validate_dispatch_policy joined whole_policy extra_registry ≡ done tt
unfolding validate_dispatch_policy collect require_reason
validates = refl

validate_dispatch_policy_lem_example : IsAccounted joined whole_policy extra_registry
validate_dispatch_policy_lem_example =
    validate_dispatch_policy_lem joined whole_policy extra_registry validates

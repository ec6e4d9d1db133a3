-- ===== src/Result.antt =====
-- core/src/lib.rs: the errors that a binding call raises into JavaScript. A step that fails while
-- shared state survives the error answers a `Result` beside that state.
use webgpu_native_js.Prelude.{String, ℕ}

-- `E::Error`, as the constructors of `JsEngine` build it; `thrown` is an exception that came out
-- of a script and is passed on as an opaque token.
pub data JsError : Type 0 where
  type_error operation_error range_error : String → JsError
  thrown : ℕ → JsError

pub data Result {ℓ} (A : Type ℓ) : Type ℓ where
  ok : A → Result A
  err : JsError → Result A

-- ===== src/Arguments/Words.antt =====
-- core/src/lib.rs: converted sequences, and the words of bytes.
use webgpu_native_js.Prelude.{
  ℕ, zero, suc, ◌*◌, ◌^◌, ◌<◌, String, ◌≡◌, refl, ap, ◌≢◌, Bool, true, false, Option, none, some,
  List, [], ◌∷◌, arith, if_keeps, length, take, drop, All,
}
use webgpu_native_js.Result.{Result, ok, err, JsError}
use webgpu_native_js.Number.{Number, finite, nan, infinite, enforce_u32}
use webgpu_native_js.Data.Holds.{Holds, and_then-Holds}
use webgpu_native_js.Arguments.{
  Iteration, stops, ends, yields, convert_sequence_from_method, convert_sequence, Value,
  from_ne_bytes, words, offset_item, sequence_offsets,
}

pub ok_injective {ℓ} : {A : Type ℓ} {a b : A} → ok a ≡ ok b → a ≡ b
ok_injective h = ground (arith, h)

pub ok≢err {ℓ} : {A : Type ℓ} {a : A} {e : JsError} → ok a ≢ err e
ok≢err h = ground (arith, h)

-- What each item becomes holds of the whole sequence.
pub convert_sequence_from_method-All {ℓ κ} :
    {A : Type ℓ} {T : Type κ} (P : T → Type 0) (convert : A → Result T)
    → ((a : A) → Holds P (convert a))
    → (items : Iteration A) → Holds (All P) (convert_sequence_from_method convert items)
unfolding convert_sequence_from_method
convert_sequence_from_method-All P convert each (stops error) = tt
convert_sequence_from_method-All P convert each ends = tt
convert_sequence_from_method-All P convert each (yields item rest) =
    and_then-Holds P (All P) _ (convert item) (each item) (λ t h.
      and_then-Holds (All P) (All P) _ _ (convert_sequence_from_method-All P convert each rest)
        (λ ts hs. (h, hs)))

-- A word of 32 bits, and a byte
abbrev pub IsWord : ℕ → Type 0
IsWord n = n < 2 ^ 32

abbrev pub IsByte : ℕ → Type 0
IsByte b = b < 256

pub Holds-any {ℓ} : {A : Type ℓ} (r : Result A) → Holds (λ _. Unit {0}) r
Holds-any (ok a) = tt
Holds-any (err error) = tt

enforce_u32-IsWord : (value : Number) (name : String) → Holds IsWord (enforce_u32 value name)
unfolding enforce_u32
enforce_u32-IsWord nan name = tt
enforce_u32-IsWord (infinite negative) name = tt
enforce_u32-IsWord (finite true whole fraction) name = ground arith
enforce_u32-IsWord (finite false whole fraction) name = ground arith

pub offset_item-IsWord : (item : Result Number) → Holds IsWord (offset_item item)
offset_item-IsWord item =
    and_then-Holds (λ _. Unit {0}) IsWord _ item (Holds-any item)
      (λ n _. enforce_u32-IsWord n "dynamicOffsets")

pub sequence_offsets-IsWord : (value : Option Value) → Holds (All IsWord) (sequence_offsets value)
unfolding convert_sequence
sequence_offsets-IsWord none = tt
sequence_offsets-IsWord (some value) = if_keeps (Holds (All IsWord)) value.is_undefined _ _ tt (
    and_then-Holds (λ _. Unit {0}) (All IsWord) _ _ (Holds-any _)
      (λ items _. convert_sequence_from_method-All IsWord offset_item offset_item-IsWord items))

pub from_ne_bytes-IsWord :
    (little : Bool) (a b c d : ℕ)
    → IsByte a
    → IsByte b
    → IsByte c
    → IsByte d
    → IsWord (from_ne_bytes little a b c d)
from_ne_bytes-IsWord true a b c d ha hb hc hd = omega (arith, ha, hb, hc, hd)
from_ne_bytes-IsWord false a b c d ha hb hc hd = omega (arith, ha, hb, hc, hd)

pub words-IsWord :
    (little : Bool) (bytes : List ℕ) → All IsByte bytes → All IsWord (words little bytes)
words-IsWord little [] h = tt
words-IsWord little (a ∷ []) h = tt
words-IsWord little (a ∷ b ∷ []) h = tt
words-IsWord little (a ∷ b ∷ c ∷ []) h = tt
words-IsWord little (a ∷ b ∷ c ∷ d ∷ rest) h = (
  from_ne_bytes-IsWord little a b c d h.0 h.1.0 h.1.1.0 h.1.1.1.0,
  words-IsWord little rest h.1.1.1.1,
)

-- A multiple of 4 bytes makes a word of each four.
pub length-words :
    (little : Bool) (n : ℕ) (bytes : List ℕ)
    → length bytes ≡ n * 4
    → length (words little bytes) ≡ n
length-words little zero [] h = refl
length-words little (suc n) [] h = omega (arith, h)
length-words little n (a ∷ []) h = omega (arith, h)
length-words little n (a ∷ b ∷ []) h = omega (arith, h)
length-words little n (a ∷ b ∷ c ∷ []) h = omega (arith, h)
length-words little zero (a ∷ b ∷ c ∷ d ∷ rest) h = omega (arith, h)
length-words little (suc n) (a ∷ b ∷ c ∷ d ∷ rest) h =
    ap suc (length-words little n rest (omega (arith, h)))

pub All-take {ℓ κ} :
    {A : Type ℓ} (P : A → Type κ) (n : ℕ) (xs : List A) → All P xs → All P (take n xs)
All-take P zero xs h = tt
All-take P (suc n) [] h = tt
All-take P (suc n) (x ∷ xs) h = (h.0, All-take P n xs h.1)

pub All-drop {ℓ κ} :
    {A : Type ℓ} (P : A → Type κ) (n : ℕ) (xs : List A) → All P xs → All P (drop n xs)
All-drop P zero xs h = h
All-drop P (suc n) [] h = tt
All-drop P (suc n) (x ∷ xs) h = All-drop P n xs h.1

-- ===== src/Memory.antt =====
-- The memory behind a pointer, as bytes: the fields of a struct with their low byte first, and slices.
use bolt_analysis.Prelude.{
  false, ℕ, zero, suc, ◌+◌, ◌*◌, ◌/◌, ◌%◌, ◌^◌, ◌<◌, ◌≤◌, ◌≡◌, refl, ap, ◌∙◌, arith, List, [], ◌∷◌,
  ◌++◌, length, take, drop, ltb, leb, if◌then◌else◌, take-length_append,
}
use bolt_analysis.Prelude.Results.{Result, ok, err}
use bolt_analysis.Panics.{Panic, index_out_of_range}

-- `maxAllocSize` of the 64-bit platforms
abbrev pub max_alloc_size : ℕ
max_alloc_size = 0x7FFFFFFF

-- The bytes of an unsigned field of a given size; what does not fit is cut off.
unfoldable pub field : ℕ → ℕ → List ℕ
field zero n = []
field (suc k) n = (n % 256) ∷ field k (n / 256)

unfoldable pub number : List ℕ → ℕ
number [] = 0
number (x ∷ xs) = x + 256 * number xs

-- The field of a size at an offset.
unfoldable pub field_at : ℕ → ℕ → List ℕ → ℕ
unfolding number
field_at offset k memory = number (take k (drop offset memory))

-- `(*[maxAllocSize]byte)(unsafe.Pointer(&buf[offset]))[:size]`
unfoldable pub slice : ℕ → ℕ → List ℕ → Result Panic (List ℕ)
slice offset size memory =
    if leb max_alloc_size offset
    then err index_out_of_range
    else if ltb max_alloc_size size
    then err index_out_of_range
    else ok (take size (drop offset memory))

pub length-field : (k n : ℕ) → length (field k n) ≡ k
unfolding field
length-field zero n = refl
length-field (suc k) n = ap suc (length-field k (n / 256))

pub number-field : (k n : ℕ) → n < 256 ^ k → number (field k n) ≡ n
unfolding field number
number-field zero n h = omega arith
number-field (suc k) n h = let ih = number-field k (n / 256) (omega arith) in omega (arith, ih)

pub field_at_lem :
    (offset k n : ℕ) (memory rest : List ℕ)
    → n < 256 ^ k
    → drop offset memory ≡ field k n ++ rest
    → field_at offset k memory ≡ n
unfolding field_at
field_at_lem offset k n memory rest h e =
    let len : k ≡ length (field k n) = omega (arith, length-field k n) in
    ap (λ xs. number (take k xs)) e
    ∙ ap number (take-length_append (field k n) rest len)
    ∙ number-field k n h

pub slice_lem :
    (offset : ℕ) (bytes memory rest : List ℕ)
    → offset < max_alloc_size
    → length bytes ≤ max_alloc_size
    → drop offset memory ≡ bytes ++ rest
    → slice offset (length bytes) memory ≡ ok bytes
unfolding slice
slice_lem offset bytes memory rest below short e =
    let same = ap (take (length bytes)) e ∙ take-length_append bytes rest refl in
    let here : leb max_alloc_size offset ≡ false = ground arith in
    let there : ltb max_alloc_size (length bytes) ≡ false = ground arith in
    rw (here, there) (ap ok same)

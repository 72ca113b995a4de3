-- ===== src/Txs/Write/Chunks.antt =====
-- A page that is written in chunks is written as a whole.
use bolt_analysis.Prelude.{
  ℕ, zero, suc, ◌+◌, ◌-◌, ◌/◌, ◌<◌, ◌≤◌, ◌≡◌, ◌⊎◌, refl, sym, ap, ◌∙◌, subst, arith, Bool-cases,
  true, false, inl, inr, List, [], ◌∷◌, Option, none, some, length, length-take, length-drop, take,
  drop, get_or, ltb, leb, ◌==◌, ◌&&◌, if◌then◌else◌,
}
use bolt_analysis.Prelude.Results.{Result, ok}
use bolt_analysis.Panics.{Panic}
use bolt_analysis.Errors.{Error}
use bolt_analysis.Txs.Write.{
  File, FileOps, Writer, chunk_size, write_chunk, unless_error, write_chunks,
}

-- The byte at an offset, after bytes were written from another offset on.
unfoldable pub patch : ℕ → List ℕ → File → File
patch offset bs f i =
    if leb offset i && ltb i (offset + length bs) then get_or bs (i - offset) 0 else f i

abbrev pub IsOutside : ℕ → ℕ → ℕ → Type 0
IsOutside offset size i = (i < offset) ⊎ (offset + size ≤ i)

-- What is relied on: a write that reports no error has written all bytes, and no write changes what is
-- outside of them.
pub record IsHonest (ops : FileOps) : Type 0 where
  pub written :
      (k offset : ℕ) (bs : List ℕ) (f : File)
      → (ops.write_at k bs offset f).1 ≡ none
      → (i : ℕ) → (ops.write_at k bs offset f).0 i ≡ patch offset bs f i
  pub within :
      (k offset : ℕ) (bs : List ℕ) (f : File) (i : ℕ)
      → IsOutside offset (length bs) i
      → (ops.write_at k bs offset f).0 i ≡ f i

pub get_or-take : (n i : ℕ) (xs : List ℕ) → i < n → get_or (take n xs) i 0 ≡ get_or xs i 0
get_or-take zero i xs h = absurd (omega arith)
get_or-take (suc n) i [] h = refl
get_or-take (suc n) zero (x ∷ xs) h = refl
get_or-take (suc n) (suc i) (x ∷ xs) h = get_or-take n i xs (omega arith)

pub get_or-drop : (n i : ℕ) (xs : List ℕ) → get_or (drop n xs) i 0 ≡ get_or xs (n + i) 0
get_or-drop zero i xs = let same : 0 + i ≡ i = omega arith in rw same refl
get_or-drop (suc n) i [] = refl
get_or-drop (suc n) i (x ∷ xs) =
    let same : suc n + i ≡ suc (n + i) = omega arith in rw same (get_or-drop n i xs)

pub patch-outside :
    (offset : ℕ) (bs : List ℕ) (f : File) (i : ℕ)
    → IsOutside offset (length bs) i
    → patch offset bs f i ≡ f i
unfolding patch
patch-outside offset bs f i (inl h) =
    let below : leb offset i ≡ false = ground arith in rw below refl
patch-outside offset bs f i (inr h) = elim (Bool-cases (leb offset i)) [
  | inl low ↦ let above : ltb i (offset + length bs) ≡ false = ground arith in rw (low, above) refl
  | inr high ↦ rw high refl
]

-- What some bytes from an offset on leave: all of them are there, unless there was an error.
pub record IsWritten (bytes : List ℕ) (size offset : ℕ) (w : Writer) (e : Option Error)
    (w' : Writer) : Type 0 where
  pub whole : e ≡ none → (j : ℕ) → j < size → w'.file (offset + j) ≡ get_or bytes j 0
  pub outside : (i : ℕ) → IsOutside offset size i → w'.file i ≡ w.file i
  pub same_pages : w'.pages ≡ w.pages
  pub same_size : w'.page_size ≡ w.page_size

-- A run that ends, without a panic.
pub record IsEnded (bytes : List ℕ) (size offset : ℕ) (w : Writer)
    (found : Result Panic (Option Error × Writer)) : Type 0 where
  pub error : Option Error
  pub after : Writer
  pub is_found : found ≡ ok (error, after)
  pub result : IsWritten bytes size offset w error after

patch-here :
    (offset j : ℕ) (bs : List ℕ) (f : File)
    → j < length bs
    → patch offset bs f (offset + j) ≡ get_or bs j 0
unfolding patch
patch-here offset j bs f lt =
    let below : leb offset (offset + j) ≡ true = ground arith in
    let above : ltb (offset + j) (offset + length bs) ≡ true = ground arith in
    let same : offset + j - offset ≡ j = omega arith in rw (below, above, same) refl

module _ (ops : FileOps) (honest : IsHonest ops) where
  call-IsWritten :
      (bytes : List ℕ) (sz offset : ℕ) (w : Writer) (o : Option Error)
      → sz ≤ length bytes
      → (ops.write_at w.calls (take sz bytes) offset w.file).1 ≡ o
      → IsWritten bytes sz offset w
          (write_chunk ops (take sz bytes) offset w).0
          (write_chunk ops (take sz bytes) offset w).1
  unfolding write_chunk
  call-IsWritten bytes sz offset w none le at =
      let len : length (take sz bytes) ≡ sz = omega (arith, length-take sz bytes) in
      rw (at, write_chunk)
        record {
          whole = λ e j lt.
              honest.written w.calls offset (take sz bytes) w.file at (offset + j)
              ∙ patch-here offset j (take sz bytes) w.file (omega arith)
              ∙ get_or-take sz j bytes lt;
          outside = λ i out.
              honest.within w.calls offset (take sz bytes) w.file i
                (subst (λ n. IsOutside offset n i) (sym len) out);
          same_pages = refl;
          same_size = refl;
        }
  call-IsWritten bytes sz offset w (some x) le at =
      let len : length (take sz bytes) ≡ sz = omega (arith, length-take sz bytes) in
      rw (at, write_chunk)
        record {
          whole = λ e j lt. cc;
          outside = λ i out.
              honest.within w.calls offset (take sz bytes) w.file i
                (subst (λ n. IsOutside offset n i) (sym len) out);
          same_pages = refl;
          same_size = refl;
        }

  -- The first `sz` bytes are written, and then the others.
  onward :
      (bytes : List ℕ) (size sz offset : ℕ) (w : Writer) (r : Option Error × Writer)
      → sz ≤ size
      → IsWritten bytes sz offset w r.0 r.1
      → (go : Writer → Result Panic (Option Error × Writer))
      → ((w' : Writer) → IsEnded (drop sz bytes) (size - sz) (offset + sz) w' (go w'))
      → IsEnded bytes size offset w (unless_error ops r go)
  unfolding unless_error
  onward bytes size sz offset w (some e, w') le first go next = record {
    error = some e;
    after = w';
    is_found = refl;
    result = record {
      whole = λ p j lt. cc;
      outside = λ i out. first.outside i (inner out);
      same_pages = first.same_pages;
      same_size = first.same_size;
    };
  }
    where
      inner : {i : ℕ} → IsOutside offset size i → IsOutside offset sz i
      inner (inl h) = inl h
      inner (inr h) = inr (omega arith)
  onward bytes size sz offset w (none, w') le first go next =
      let n = next w' in
      record {
        error = n.error;
        after = n.after;
        is_found = n.is_found;
        result = record {
          whole = λ p j lt. elim (Bool-cases (ltb j sz)) [
            | inl early ↦
                n.result.outside (offset + j) (inl (ground arith))
                ∙ first.whole refl j (ground arith)
            | inr late ↦
                let same : offset + j ≡ offset + sz + (j - sz) = ground arith in
                let place : sz + (j - sz) ≡ j = ground arith in
                ap n.after.file same
                ∙ n.result.whole p (j - sz) (ground arith)
                ∙ get_or-drop sz (j - sz) bytes
                ∙ ap (λ k. get_or bytes k 0) place
          ];
          outside = λ i out. n.result.outside i (later out) ∙ first.outside i (inner out);
          same_pages = n.result.same_pages ∙ first.same_pages;
          same_size = n.result.same_size ∙ first.same_size;
        };
      }
    where
      inner : {i : ℕ} → IsOutside offset size i → IsOutside offset sz i
      inner (inl h) = inl h
      inner (inr h) = inr (omega arith)

      later : {i : ℕ} → IsOutside offset size i → IsOutside (offset + sz) (size - sz) i
      later (inl h) = inl (omega arith)
      later (inr h) = inr (omega arith)

  last-IsEnded :
      (bytes : List ℕ) (size offset : ℕ) (w : Writer)
      → IsEnded bytes (size - size) offset w (ok (none, w))
  last-IsEnded bytes size offset w = record {
    error = none;
    after = w;
    is_found = refl;
    result = record {
      whole = λ e j lt. absurd (omega arith);
      outside = λ i out. refl;
      same_pages = refl;
      same_size = refl;
    };
  }

  -- The loop over the chunks ends.
  pub write_chunks-IsEnded :
      (fuel : ℕ) (bytes : List ℕ) (size offset : ℕ) (w : Writer)
      → size / chunk_size < fuel
      → size ≤ length bytes
      → IsEnded bytes size offset w (write_chunks ops fuel bytes size offset w)
  unfolding write_chunks
  write_chunks-IsEnded zero bytes size offset w enough le = absurd (omega arith)
  write_chunks-IsEnded (suc fuel) bytes size offset w enough le =
      elim (Bool-cases (ltb chunk_size size)) [
        | inl long ↦
            let more : (size - chunk_size == 0) ≡ false = ground arith in
            rw long (
              onward bytes size chunk_size offset w
                (write_chunk ops (take chunk_size bytes) offset w) (ground arith)
                (call-IsWritten bytes chunk_size offset w _ (ground arith) refl) _
                (λ w'. rw more (
                  write_chunks-IsEnded fuel (drop chunk_size bytes) (size - chunk_size)
                    (offset + chunk_size) w' (ground arith)
                    (omega (arith, length-drop chunk_size bytes)))))
        | inr short ↦
            let all : (size - size == 0) ≡ true = ground arith in
            rw short (
              onward bytes size size offset w (write_chunk ops (take size bytes) offset w)
                (omega arith) (call-IsWritten bytes size offset w _ le refl) _
                (λ w'. rw all (last-IsEnded (drop size bytes) size (offset + size) w')))
      ]

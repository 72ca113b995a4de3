-- ===== src/Txs/Write/Pages.antt =====
-- After `tx.write` the file has the dirty pages, and all else is as before.
use bolt_analysis.Prelude.{
  ℕ, ◌+◌, ◌*◌, ◌/◌, ◌<◌, ◌≤◌, ◌≡◌, ◌⊎◌, refl, sym, ap, ◌∙◌, subst, arith, Bool-cases, inl, inr,
  List, [], ◌∷◌, All, All-mono, Option, none, some, length, get_or, leb,
}
use bolt_analysis.Prelude.Results.{Result, ok, ◌>>=◌}
use bolt_analysis.Panics.{Panic}
use bolt_analysis.Errors.{Error}
use bolt_analysis.Txs.Write.{
  FileOps, DirtyPage, Writer, insert_page, sort_pages, page_bytes, chunk_size, unless_error,
  write_chunks, write_pages, synced, finished, write,
}
use bolt_analysis.Txs.Write.Chunks.{IsOutside, IsWritten, IsHonest, write_chunks-IsEnded}

-- All bytes of the page are in memory.
abbrev pub IsFull : ℕ → DirtyPage → Type 0
IsFull size p = page_bytes size p ≤ length p.bytes

abbrev pub IsApart : ℕ → DirtyPage → DirtyPage → Type 0
IsApart size p q =
    (p.id * size + page_bytes size p ≤ q.id * size)
    ⊎ (q.id * size + page_bytes size q ≤ p.id * size)

-- No two pages overlap.
abbrev pub AreApart : ℕ → List DirtyPage → Type 0
AreApart size [] = Unit
AreApart size (p ∷ ps) = All (IsApart size p) ps × AreApart size ps

-- The file does not have a byte of the page at `i`.
abbrev pub IsElsewhere : ℕ → ℕ → DirtyPage → Type 0
IsElsewhere size i p = IsOutside (p.id * size) (page_bytes size p) i

-- The file has the bytes of the page.
abbrev pub IsStored : ℕ → Writer → DirtyPage → Type 0
IsStored size w p = (j : ℕ) → j < page_bytes size p → w.file (p.id * size + j) ≡ get_or p.bytes j 0

All-insert_page :
    (P : DirtyPage → Type 0) (p : DirtyPage) (qs : List DirtyPage)
    → P p
    → All P qs
    → All P (insert_page p qs)
unfolding insert_page
All-insert_page P p [] h hs = (h, tt)
All-insert_page P p (q ∷ qs) h hs = elim (Bool-cases (leb p.id q.id)) [
  | inl first ↦ rw first (h, hs)
  | inr later ↦ rw later (hs.0, All-insert_page P p qs h hs.1)
]

All-of_insert_page :
    (P : DirtyPage → Type 0) (p : DirtyPage) (qs : List DirtyPage)
    → All P (insert_page p qs)
    → P p × All P qs
unfolding insert_page
All-of_insert_page P p [] h = h
All-of_insert_page P p (q ∷ qs) h = elim (Bool-cases (leb p.id q.id)) [
  | inl first ↦ rw first at h
  | inr later ↦
      let (here, there) = rw later at h in
      let (hp, hqs) = All-of_insert_page P p qs there in (hp, (here, hqs))
]

All-sort_pages : (P : DirtyPage → Type 0) (ps : List DirtyPage) → All P ps → All P (sort_pages ps)
unfolding sort_pages
All-sort_pages P [] h = tt
All-sort_pages P (p ∷ ps) h = All-insert_page P p (sort_pages ps) h.0 (All-sort_pages P ps h.1)

All-of_sort_pages :
    (P : DirtyPage → Type 0) (ps : List DirtyPage) → All P (sort_pages ps) → All P ps
unfolding sort_pages
All-of_sort_pages P [] h = tt
All-of_sort_pages P (p ∷ ps) h =
    let (here, there) = All-of_insert_page P p (sort_pages ps) h in
    (here, All-of_sort_pages P ps there)

IsApart-sym : (size : ℕ) (p q : DirtyPage) → IsApart size p q → IsApart size q p
IsApart-sym size p q (inl h) = inr h
IsApart-sym size p q (inr h) = inl h

insert_page-AreApart :
    (size : ℕ) (p : DirtyPage) (qs : List DirtyPage)
    → All (IsApart size p) qs
    → AreApart size qs
    → AreApart size (insert_page p qs)
unfolding insert_page
insert_page-AreApart size p [] h hs = (tt, tt)
insert_page-AreApart size p (q ∷ qs) h hs = elim (Bool-cases (leb p.id q.id)) [
  | inl first ↦ rw first (h, hs)
  | inr later ↦ rw later (
    All-insert_page (IsApart size q) p qs (IsApart-sym size p q h.0) hs.0,
    insert_page-AreApart size p qs h.1 hs.1,
  )
]

sort_pages-AreApart :
    (size : ℕ) (ps : List DirtyPage) → AreApart size ps → AreApart size (sort_pages ps)
unfolding sort_pages
sort_pages-AreApart size [] h = tt
sort_pages-AreApart size (p ∷ ps) h =
    insert_page-AreApart size p (sort_pages ps) (All-sort_pages (IsApart size p) ps h.0)
      (sort_pages-AreApart size ps h.1)

-- The pages are written, or there was an error.
record IsSaved (size : ℕ) (ps : List DirtyPage) (w : Writer)
    (found : Result Panic (Option Error × Writer)) : Type 0 where
  error : Option Error
  after : Writer
  is_found : found ≡ ok (error, after)
  stored : error ≡ none → All (IsStored size after) ps
  elsewhere : (i : ℕ) → All (IsElsewhere size i) ps → after.file i ≡ w.file i
  same_pages : after.pages ≡ w.pages
  same_size : after.page_size ≡ w.page_size

module _ (ops : FileOps) (honest : IsHonest ops) (size : ℕ) where
  -- A byte of a page is not one of the pages that are apart from it.
  byte-IsElsewhere :
      (p : DirtyPage) (ps : List DirtyPage) (j : ℕ)
      → j < page_bytes size p
      → All (IsApart size p) ps
      → All (IsElsewhere size (p.id * size + j)) ps
  byte-IsElsewhere p ps j lt h =
      All-mono (IsApart size p) (IsElsewhere size (p.id * size + j)) ps (λ q a. split q a) h
    where
      split : (q : DirtyPage) → IsApart size p q → IsElsewhere size (p.id * size + j) q
      split q (inl h) = inl (omega arith)
      split q (inr h) = inr (omega arith)

  page-IsSaved :
      (p : DirtyPage) (ps : List DirtyPage) (w : Writer) (e : Option Error) (w1 : Writer)
      → All (IsApart size p) ps
      → IsWritten p.bytes (page_bytes size p) (p.id * size) w e w1
      → IsSaved size ps w1 (write_pages ops ps w1)
      → IsSaved size (p ∷ ps) w (unless_error ops (e, w1) (write_pages ops ps))
  unfolding unless_error
  page-IsSaved p ps w (some e) w1 apart here rest = record {
    error = some e;
    after = w1;
    is_found = refl;
    stored = λ h. cc;
    elsewhere = λ i out. here.outside i out.0;
    same_pages = here.same_pages;
    same_size = here.same_size;
  }
  page-IsSaved p ps w none w1 apart here rest = record {
    error = rest.error;
    after = rest.after;
    is_found = rest.is_found;
    stored = λ h. (
      λ j lt.
          rest.elsewhere (p.id * size + j) (byte-IsElsewhere p ps j lt apart)
          ∙ here.whole refl j lt,
      rest.stored h,
    );
    elsewhere = λ i out. rest.elsewhere i out.1 ∙ here.outside i out.0;
    same_pages = rest.same_pages ∙ here.same_pages;
    same_size = rest.same_size ∙ here.same_size;
  }

  write_pages-IsSaved :
      (ps : List DirtyPage) (w : Writer)
      → w.page_size ≡ size
      → All (IsFull size) ps
      → AreApart size ps
      → IsSaved size ps w (write_pages ops ps w)
  unfolding write_pages unless_error
  write_pages-IsSaved [] w same full apart = record {
    error = none;
    after = w;
    is_found = refl;
    stored = λ e. tt;
    elsewhere = λ i out. refl;
    same_pages = refl;
    same_size = refl;
  }
  write_pages-IsSaved (p ∷ ps) w same full apart =
      let bytes = page_bytes size p in
      let c =
        write_chunks-IsEnded ops honest (bytes / chunk_size + 1) p.bytes bytes (p.id * size) w
          (omega arith) full.0 in
      let rest = write_pages-IsSaved ps c.after (c.result.same_size ∙ same) full.1 apart.1 in
      subst
        (λ t. IsSaved size (p ∷ ps) w (
          write_chunks ops (page_bytes t p / chunk_size + 1) p.bytes (page_bytes t p) (p.id * t) w
          >>= λ r. unless_error ops r (write_pages ops ps)))
        (sym same) (rw c.is_found (page-IsSaved p ps w c.error c.after apart.0 c.result rest))

  finished-fields :
      (pages : List DirtyPage) (w : Writer) (o : Option Error)
      → ((finished ops pages w o).0 ≡ o)
        × ((finished ops pages w o).1.file ≡ w.file)
        × (synced ops (finished ops pages w o).1 ≡ synced ops w)
        × ((finished ops pages w o).1.pages ≡ w.pages)
  unfolding finished synced
  finished-fields pages w none = (refl, refl, refl, refl)
  finished-fields pages w (some e) = (refl, refl, refl, refl)

  -- The outcome of `tx.write`.
  pub record IsOutcome (w : Writer) (found : Result Panic (Option Error × Writer)) : Type 0 where
    pub error : Option Error
    pub after : Writer
    pub is_found : found ≡ ok (error, after)
    pub no_pages : after.pages ≡ []
    pub elsewhere : (i : ℕ) → All (IsElsewhere size i) w.pages → after.file i ≡ w.file i
    pub stored : error ≡ none → All (IsStored size after) w.pages
    pub safe : error ≡ none → synced ops after ≡ none

  end-IsOutcome :
      (w : Writer) (e : Option Error) (w1 : Writer)
      → w1.pages ≡ []
      → ((i : ℕ) → All (IsElsewhere size i) w.pages → w1.file i ≡ w.file i)
      → (e ≡ none → All (IsStored size w1) w.pages)
      → IsOutcome w
          (unless_error ops (e, w1) λ w'. ok (finished ops (sort_pages w.pages) w' (synced ops w')))
  unfolding unless_error
  end-IsOutcome w (some e) w1 none_left elsewhere stored = record {
    error = some e;
    after = w1;
    is_found = refl;
    no_pages = none_left;
    elsewhere = elsewhere;
    stored = stored;
    safe = λ h. cc;
  }
  end-IsOutcome w none w1 none_left elsewhere stored =
      let end = finished ops (sort_pages w.pages) w1 (synced ops w1) in
      let (error, file, sync, pages) = finished-fields (sort_pages w.pages) w1 (synced ops w1) in
      record {
        error = end.0;
        after = end.1;
        is_found = refl;
        no_pages = pages ∙ none_left;
        elsewhere = λ i out. ap (λ f. f i) file ∙ elsewhere i out;
        stored = λ h.
            All-mono (IsStored size w1) (IsStored size end.1) w.pages
              (λ p s j lt. ap (λ f. f (p.id * size + j)) file ∙ s j lt) (stored refl);
        safe = λ h. sync ∙ sym error ∙ h;
      }

  -- On a file where a write that reports no error has written all bytes, and no write changes what is
  -- outside of them, if all bytes of the dirty pages are in memory, and no two of them overlap in the
  -- file: `tx.write` ends without a panic, and has no dirty pages left. Whether it returns an error or
  -- not, no byte of the file outside of the dirty pages has changed. If it returns none, the file has all
  -- bytes of each page where its id says, and the file was synced without an error if it is to be synced.
  pub write-IsOutcome :
      (w : Writer)
      → w.page_size ≡ size
      → All (IsFull size) w.pages
      → AreApart size w.pages
      → IsOutcome w (write ops w)
  unfolding write
  write-IsOutcome w same full apart =
      let ps = sort_pages w.pages in
      let start : Writer = record w { pages = [] } in
      let saved =
        write_pages-IsSaved ps start same (All-sort_pages (IsFull size) w.pages full)
          (sort_pages-AreApart size w.pages apart) in
      rw saved.is_found (
        end-IsOutcome w saved.error saved.after saved.same_pages
          (λ i out. saved.elsewhere i (All-sort_pages (IsElsewhere size i) w.pages out))
          (λ h. All-of_sort_pages (IsStored size saved.after) w.pages (saved.stored h)))

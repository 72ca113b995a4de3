-- ===== src/Txs/Snapshots.antt =====
-- A writer releases only pages that no open reader can see.
use bolt_analysis.Prelude.{
  ◌∙◌, ap, ℕ, ◌-◌, ◌≤◌, ◌<◌, ◌≡◌, refl, arith, true, false, List, [], ◌∷◌, All, All-mono, ltb, leb,
  if◌then◌else◌, inl, inr, Bool-cases, some,
}
use bolt_analysis.Prelude.Counts.{count, count-append}
use bolt_analysis.Prelude.Results.{Result, ok, err}
use bolt_analysis.Words.{add64, u64_mod}
use bolt_analysis.Panics.{Panic}
use bolt_analysis.Meta.{Meta, current_meta}
use bolt_analysis.Freelist.{Freelist, release}
use bolt_analysis.Freelist.Valid.{IsValid}
use bolt_analysis.Freelist.Release.{release_lem}
use bolt_analysis.Freelist.TxMap.{Pending, lookup, pending_ids}
use bolt_analysis.Txs.{Tx, Txs, new_tx, min_txid, begin_rw_tx, add_writer, with_freelist}

min_txid-le : (minid : ℕ) (txs : List Tx) → min_txid minid txs ≤ minid
unfolding min_txid
min_txid-le minid [] = omega arith
min_txid-le minid (t ∷ txs) =
    ground (arith, min_txid-le (if ltb t.meta.txid minid then t.meta.txid else minid) txs)

min_txid-All : (minid : ℕ) (txs : List Tx) → All (λ t. min_txid minid txs ≤ t.meta.txid) txs
unfolding min_txid
min_txid-All minid [] = tt
min_txid-All minid (t ∷ txs) = (
  ground (arith, min_txid-le (if ltb t.meta.txid minid then t.meta.txid else minid) txs),
  min_txid-All (if ltb t.meta.txid minid then t.meta.txid else minid) txs,
)

lookup-count : (a t : ℕ) (m : Pending) → count a (lookup t m) ≤ count a (pending_ids m)
unfolding lookup
lookup-count a t [] = omega arith
lookup-count a t ((k, ids) ∷ m) =
    ground (arith, count-append a ids (pending_ids m), lookup-count a t m)

-- The pages that a transaction freed and that a reader at `txid` may still see: they stay pending, and
-- none of them is free.
pub record IsKept (f g : Freelist) (txid : ℕ) : Type 0 where
  pub pending : (t : ℕ) → txid ≤ t → lookup t g.pending ≡ lookup t f.pending
  pub not_free : (t id : ℕ) → txid ≤ t → 0 < count id (lookup t f.pending) → count id g.ids ≡ 0

not_free-of_valid :
    (f : Freelist) → IsValid f → (t id : ℕ) → 0 < count id (lookup t f.pending) → count id f.ids ≡ 0
not_free-of_valid f v t id h = ground (arith, v.counted id, lookup-count id t f.pending)

kept_all : (f : Freelist) → IsValid f → (txid : ℕ) → IsKept f f txid
kept_all f v txid = record {
  pending = λ t h. refl;
  not_free = λ t id h. not_free-of_valid f v t id;
}

release-IsKept :
    (f : Freelist)
    → IsValid f
    → (minid txid : ℕ) → 0 < minid
    → minid ≤ txid
    → IsKept f (release (minid - 1) f).1 txid
release-IsKept f v minid txid pos le =
    let (done, valid, counts, looked, cached) = release_lem (minid - 1) f v in
    let same : (t : ℕ)
        → txid ≤ t
        → lookup t (release (minid - 1) f).1.pending ≡ lookup t f.pending =
      λ t h. let later : leb t (minid - 1) ≡ false = ground arith in rw later at (looked t) in
    record {
      pending = same;
      not_free = λ t id h some_pages.
          not_free-of_valid (release (minid - 1) f).1 valid t id (rw (same t h) some_pages);
    }

with_freelist-ok :
    (t : Tx) (db : Txs) (r : Result Panic (Unit {0}) × Freelist)
    → r.0 ≡ ok tt
    → with_freelist t db r ≡ (ok (ok t), record db { freelist = r.1 })
unfolding with_freelist
with_freelist-ok t db (ok u, f) e = refl
with_freelist-ok t db (err p, f) e = absurd (ground (arith, e))

begin_rw_tx-add_writer :
    (address : ℕ) (db : Txs) (m : Meta)
    → db.opened ≡ true
    → db.read_only ≡ false
    → current_meta db.meta0 db.meta1 ≡ ok m
    → begin_rw_tx address db ≡ add_writer address (ok m) db
unfolding begin_rw_tx
begin_rw_tx-add_writer address db m o r e = rw (o, r, e)

-- What a writer starts with.
pub record IsStarted (db : Txs) (m : Meta) (t : Tx) (db' : Txs) : Type 0 where
  pub next_id : t.meta.txid ≡ add64 m.txid 1
  pub writes : t.writable ≡ true
  pub running : db'.rwtx ≡ some t
  pub locked : db'.rwlock ≡ true
  pub same_readers : db'.txs ≡ db.txs
  pub valid : IsValid db'.freelist
  pub kept : All (λ r. IsKept db.freelist db'.freelist r.meta.txid) db.txs
  pub all_released : db.txs ≡ [] → (id : ℕ) → id < u64_mod - 1 → lookup id db'.freelist.pending ≡ []

-- On an open database that can be written, with a current meta and a valid freelist, `beginRWTx`
-- starts a writer whose id is the next one. The freelist stays valid; for every open reader, the pages
-- freed by transactions from the reader's id on stay pending, and none of them is free; if there is no
-- open reader, all pending pages of transactions below 2^64 - 1 are released.
pub begin_rw_tx_lem :
    (address : ℕ) (db : Txs) (m : Meta)
    → db.opened ≡ true
    → db.read_only ≡ false
    → current_meta db.meta0 db.meta1 ≡ ok m
    → IsValid db.freelist
    → (t : Tx) × (db' : Txs) × (begin_rw_tx address db ≡ (ok (ok t), db')) × IsStarted db m t db'
unfolding add_writer
begin_rw_tx_lem address db m o r e v =
    let minid = min_txid (u64_mod - 1) db.txs in
    let older = min_txid-All (u64_mod - 1) db.txs in
    let no_readers : db.txs ≡ [] → minid ≡ u64_mod - 1 =
      λ h. unfold min_txid in (ap (min_txid (u64_mod - 1)) h) in
    let t = new_tx address true m in
    elim (Bool-cases (ltb 0 minid)) [
      | inl some_id ↦
          let (done, valid, counts, looked, cached) = release_lem (minid - 1) db.freelist v in
          (
            t,
            record db {
              rwlock = true;
              rwtx = some t;
              freelist = (release (minid - 1) db.freelist).1;
            },
            begin_rw_tx-add_writer address db m o r e
                ∙ rw some_id (
                    with_freelist-ok t (record db { rwlock = true; rwtx = some t })
                      (release (minid - 1) db.freelist) done),
            record {
              next_id = refl;
              writes = refl;
              running = refl;
              locked = refl;
              same_readers = refl;
              valid = valid;
              kept =
                  All-mono (λ r. minid ≤ r.meta.txid)
                    (λ r. IsKept db.freelist (release (minid - 1) db.freelist).1 r.meta.txid) db.txs
                    (λ r le. release-IsKept db.freelist v minid r.meta.txid (ground arith) le)
                    older;
              all_released = λ h id lt.
                  let all : leb id (minid - 1) ≡ true = ground (arith, no_readers h) in
                  rw all at (looked id);
            },
          )
      | inr zero_id ↦ (
        t,
        record db { rwlock = true; rwtx = some t },
        begin_rw_tx-add_writer address db m o r e ∙ rw zero_id,
        record {
          next_id = refl;
          writes = refl;
          running = refl;
          locked = refl;
          same_readers = refl;
          valid = v;
          kept =
              All-mono (λ r. minid ≤ r.meta.txid) (λ r. IsKept db.freelist db.freelist r.meta.txid)
                db.txs (λ r le. kept_all db.freelist v r.meta.txid) older;
          all_released = λ h id lt. absurd (ground (arith, no_readers h));
        },
      )
    ]

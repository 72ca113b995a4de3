-- ===== src/Txs/Views.antt =====
-- `View` leaves no reader behind, and a rollback gives the freelist back that the writer found.
use bolt_analysis.Prelude.{
  ℕ, ◌+◌, ◌<◌, ◌≤◌, ◌≡◌, refl, sym, ap, ◌∙◌, subst, arith, Bool, true, false, not, List, [], ◌∷◌,
  ◌++◌, length, length-append, take, take-length_append, Option, none, some, ◌==◌, if◌then◌else◌,
}
use bolt_analysis.Prelude.Results.{Result, ok, err}
use bolt_analysis.Panics.{Panic}
use bolt_analysis.Errors.{database_not_open, Error}
use bolt_analysis.Words.{u16_max}
use bolt_analysis.Page.{Page}
use bolt_analysis.Stats.{TxStats, add}
use bolt_analysis.Meta.{Meta, current_meta}
use bolt_analysis.Freelist.{Freelist, count}
use bolt_analysis.Freelist as F
use bolt_analysis.Freelist.TxMap.{delete}
use bolt_analysis.Freelist.Valid.{IsValid}
use bolt_analysis.Freelist.Disk.{reload, write, reindex, read}
use bolt_analysis.Freelist.Disk.RoundTrip.{reload-write}
use bolt_analysis.Txs.{
  Tx, Txs, new_tx, add_reader, begin_tx, fill, is_open, last_tx, without_tx, remove_tx,
}
use bolt_analysis.Txs.Close.{
  Handle, Body, close, rollback, user_rollback, deferred, ended, begun, view, unless_panics,
  unless_panic, without_error, close_writer, closed_at,
}

last_tx-append : (t u : Tx) (txs : List Tx) → last_tx t (txs ++ u ∷ []) ≡ u
unfolding last_tx
last_tx-append t u [] = refl
last_tx-append t u (t' ∷ txs) = last_tx-append t' u txs

fill-append :
    (address : ℕ) (last u : Tx) (txs : List Tx)
    → is_open address txs ≡ false
    → u.address ≡ address
    → fill address last (txs ++ u ∷ []) ≡ txs ++ last ∷ []
unfolding fill is_open
fill-append address last u [] h e =
    let here : (u.address == address) ≡ true = ground arith in rw here
fill-append address last u (t ∷ txs) h e =
    let other : (t.address == address) ≡ false = ground arith in
    rw other (ap (◌∷◌ t) (fill-append address last u txs (ground arith) e))

is_open-append :
    (address : ℕ) (u : Tx) (txs : List Tx)
    → u.address ≡ address
    → is_open address (txs ++ u ∷ []) ≡ true
unfolding is_open
is_open-append address u [] e = ground arith
is_open-append address u (t ∷ txs) e = ground (arith, is_open-append address u txs e)

without_tx-open :
    (address : ℕ) (t : Tx) (txs : List Tx)
    → is_open address (t ∷ txs) ≡ true
    → without_tx address (t ∷ txs) ≡ take (length txs) (fill address (last_tx t txs) (t ∷ txs))
unfolding without_tx
without_tx-open address t txs h = rw h

-- Taking off what was put on last gives the list back.
without_tx-append :
    (address : ℕ) (u : Tx) (txs : List Tx)
    → is_open address txs ≡ false
    → u.address ≡ address
    → without_tx address (txs ++ u ∷ []) ≡ txs
without_tx-append address u [] h e = without_tx-open address u [] (is_open-append address u [] e)
without_tx-append address u (t ∷ txs) h e =
    let size : length (txs ++ u ∷ []) ≡ length (t ∷ txs) =
      omega (arith, length-append txs (u ∷ [])) in
    without_tx-open address t (txs ++ u ∷ []) (is_open-append address u (t ∷ txs) e)
    ∙ ap (λ l. take (length (txs ++ u ∷ [])) (fill address l (t ∷ txs ++ u ∷ [])))
        (last_tx-append t u txs)
    ∙ ap (take (length (txs ++ u ∷ []))) (fill-append address u u (t ∷ txs) h e)
    ∙ take-length_append (t ∷ txs) (u ∷ []) size

-- What `View` leaves behind: the result of its function, and the open readers, the read locks and the
-- count as they were, with the counters of the transaction added.
pub record IsClosed (before after : Txs) (stats : TxStats) (r : Result Panic (Option Error))
    (found : Result Panic (Option Error) × Txs) : Type 0 where
  pub end : Txs
  pub is_found : found ≡ (r, end)
  pub same_txs : end.txs ≡ before.txs
  pub same_readers : end.mmap_readers ≡ before.mmap_readers
  pub counted : end.open_tx_count ≡ length before.txs
  pub same_freelist : end.freelist ≡ after.freelist
  pub added : end.tx_stats ≡ add after.tx_stats stats

removed-IsClosed :
    (before after : Txs) (address : ℕ) (t : Tx) (stats : TxStats) (r : Result Panic (Option Error))
    → t.address ≡ address
    → is_open address before.txs ≡ false
    → after.txs ≡ before.txs ++ t ∷ []
    → after.mmap_readers ≡ before.mmap_readers + 1
    → IsClosed before after stats r (r, remove_tx address stats after)
unfolding remove_tx
removed-IsClosed before after address t stats r at h txs readers =
    let same = ap (without_tx address) txs ∙ without_tx-append address t before.txs h at in
    record {
      end = remove_tx address stats after;
      is_found = refl;
      same_txs = same;
      same_readers = omega (arith, readers);
      counted = ap length same;
      same_freelist = refl;
      added = refl;
    }

-- What comes after the function of the user, for a reader.
ended-remove_tx :
    (address : ℕ) (m : Meta) (r : Result Panic (Option Error)) (stats : TxStats) (db : Txs)
    → ended (new_tx address false m) (r, stats, db) ≡ (r, remove_tx address stats db)
unfolding ended deferred unless_panics unless_panic user_rollback rollback close without_error
ended-remove_tx address m (err p) stats db = refl
ended-remove_tx address m (ok none) stats db = refl
ended-remove_tx address m (ok (some x)) stats db = refl

if-not {ℓ} : {A : Type ℓ} (b : Bool) (x y : A) → b ≡ true → (if not b then x else y) ≡ y
if-not true x y e = refl
if-not false x y e = cc

-- On an open database with a valid meta, for an address of no open transaction and a function that
-- keeps the open transactions and the read locks as they are: `View` returns the result of the
-- function, be it none, an error or a panic, and leaves the open transactions and the read locks as
-- they were before.
pub view-IsClosed :
    (address : ℕ) (fn : Body) (db : Txs) (m : Meta)
    → db.opened ≡ true
    → current_meta db.meta0 db.meta1 ≡ ok m
    → is_open address db.txs ≡ false
    → (r : Result Panic (Option Error)) (stats : TxStats) (after : Txs)
    → fn (new_tx address false m) (add_reader address (ok m) db).1 ≡ (r, stats, after)
    → after.txs ≡ db.txs ++ new_tx address false m ∷ []
    → after.mmap_readers ≡ db.mmap_readers + 1
    → IsClosed db after stats r (view address fn db)
unfolding view begun begin_tx add_reader
view-IsClosed address fn db m o c h r stats after run txs readers =
    let started =
      if-not db.opened (ok (err database_not_open), db)
        (add_reader address (current_meta db.meta0 db.meta1) db) o
      ∙ ap (λ q. add_reader address q db) c in
    subst (IsClosed db after stats r)
      (sym (
        ap (begun fn) started
        ∙ ap (ended (new_tx address false m)) run
        ∙ ended-remove_tx address m r stats after))
      (removed-IsClosed db after address (new_tx address false m) stats r refl h txs readers)

abbrev pub writer : ℕ → Meta → Bool → TxStats → Handle
writer address own managed stats = record {
  tx = record { address = address; writable = true; meta = own };
  managed = managed;
  opened = true;
  stats = stats;
}

-- What the rollback of a writer leaves behind.
pub record IsRestored (f : Freelist) (found : Result Panic (Unit {0}) × Handle × Txs) : Type 0 where
  pub end_handle : Handle
  pub end : Txs
  pub is_found : found ≡ (ok tt, end_handle, end)
  pub is_closed : end_handle.opened ≡ false
  pub same_freelist : end.freelist ≡ f
  pub no_writer : end.rwtx ≡ none
  pub unlocked : end.rwlock ≡ false

reload-pending : (q : Page) (f g : Freelist) → f.pending ≡ g.pending → reload q f ≡ reload q g
unfolding reload read reindex
reload-pending q f g e = ap (λ ps. reload q (record f { pending = ps })) e

reload_written :
    (f : Freelist)
    → IsValid f
    → (p q : Page) → count f < u16_max
    → count f ≤ length p.words
    → write f p ≡ ok q
    → reload q f ≡ f
reload_written f v p q small room written =
    let (q', written', back) = reload-write f v p small room in
    let same : q' ≡ q = ok-injective q' q (sym written' ∙ written) in
    subst (λ x. reload x f ≡ f) same back
  where
    ok-injective : (a b : Page) → ◌≡◌ {A = Result Panic Page} (ok a) (ok b) → a ≡ b
    ok-injective a b e = cc

-- A writer that has freed pages only in its own name, on a database whose freelist page holds the
-- valid freelist `f` of its start, with fewer than 65535 ids: its rollback ends without a panic,
-- closes it, gives `f` back whatever it allocated or freed, and unlocks the writer's lock.
pub rollback-IsRestored :
    (f : Freelist)
    → IsValid f
    → (p q : Page) (address : ℕ) (own m : Meta) (managed : Bool) (stats : TxStats) (db : Txs)
    → count f < u16_max
    → count f ≤ length p.words
    → write f p ≡ ok q
    → current_meta db.meta0 db.meta1 ≡ ok m
    → db.disk m.freelist ≡ q
    → delete own.txid db.freelist.pending ≡ f.pending
    → IsRestored f (rollback (writer address own managed stats) db)
unfolding rollback closed_at close close_writer F.rollback
rollback-IsRestored f v p q address own m managed stats db small room written c page pending =
    let db' = record db { freelist = F.rollback own.txid db.freelist } in
    subst (λ r. IsRestored f (closed_at (writer address own managed stats) db' r)) (sym c)
      record {
        end_handle = record (writer address own managed stats) { opened = false };
        end =
            close_writer stats (record db' { freelist = reload (db.disk m.freelist) db'.freelist });
        is_found = refl;
        is_closed = refl;
        same_freelist =
            ap (λ x. reload x db'.freelist) page
            ∙ reload-pending q db'.freelist f pending
            ∙ reload_written f v p q small room written;
        no_writer = refl;
        unlocked = refl;
      }

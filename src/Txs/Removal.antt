-- ===== src/Txs/Removal.antt =====
-- `removeTx` takes one transaction off the open ones.
use bolt_analysis.Prelude.{
  ℕ, ◌+◌, ◌≡◌, arith, true, List, [], ◌∷◌, ◌==◌, ◌&&◌, inl, inr, Bool-cases, length, take, bit,
}
use bolt_analysis.Txs.{TxStats, Tx, Txs, fill, is_open, last_tx, without_tx, remove_tx}

-- How many open transactions have an address.
abbrev pub count_tx : ℕ → List Tx → ℕ
count_tx a [] = 0
count_tx a (t ∷ txs) = bit (a == t.address) + count_tx a txs

count-take_last :
    (a : ℕ) (t : Tx) (txs : List Tx)
    → count_tx a (take (length txs) (t ∷ txs)) + bit (a == (last_tx t txs).address)
      ≡ count_tx a (t ∷ txs)
unfolding last_tx
count-take_last a t [] = omega arith
count-take_last a t (t' ∷ txs) = omega (arith, count-take_last a t' txs)

count-take-fill :
    (a address : ℕ) (t : Tx) (txs : List Tx)
    → is_open address (t ∷ txs) ≡ true
    → count_tx a (take (length txs) (fill address (last_tx t txs) (t ∷ txs))) + bit (a == address)
      ≡ count_tx a (t ∷ txs)
unfolding last_tx fill is_open
count-take-fill a address t [] h = ground arith
count-take-fill a address t (t' ∷ txs) h = elim (Bool-cases (t.address == address)) [
  | inl here ↦ rw here (ground (arith, count-take_last a t' txs))
  | inr later ↦ rw later (omega (arith, count-take-fill a address t' txs (ground arith)))
]

-- `removeTx` of an open transaction takes it off the open ones once, and any other stays, as often as
-- it was there; of one that is not open, nothing is taken.
pub remove_tx_lem :
    (address a : ℕ) (stats : TxStats) (db : Txs)
    → count_tx a (remove_tx address stats db).txs + bit (a == address && is_open address db.txs)
      ≡ count_tx a db.txs
unfolding remove_tx without_tx
remove_tx_lem address a stats db = without_tx-count db.txs
  where
    without_tx-count :
        (txs : List Tx)
        → count_tx a (without_tx address txs) + bit (a == address && is_open address txs)
          ≡ count_tx a txs
    without_tx-count [] = ground arith
    without_tx-count (t ∷ txs) = elim (Bool-cases (is_open address (t ∷ txs))) [
      | inl here ↦ rw here (ground (arith, count-take-fill a address t txs here))
      | inr none_here ↦ rw none_here (ground arith)
    ]

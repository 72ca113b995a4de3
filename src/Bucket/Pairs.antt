-- ===== src/Bucket/Pairs.antt =====
-- bucket.go: `Get`, `Put`, `Delete` and the sequence of a bucket. The loops of the cursor have
-- `height` rounds.
use bolt_analysis.Prelude.{
  ℕ, ◌+◌, ◌%◌, ◌^◌, Bool, false, not, [], ◌∷◌, Option, none, some, length, ltb, ◌==◌, ◌&&◌,
  if◌then◌else◌,
}
use bolt_analysis.Prelude.Results.{Result, ok, err, ◌>>=◌}
use bolt_analysis.Bytes.{Bytes, equal}
use bolt_analysis.Errors.{
  Error, tx_closed, tx_not_writable, key_required, key_too_large, value_too_large,
  incompatible_value,
}
use bolt_analysis.Page.{has_flag}
use bolt_analysis.Panics.{index_out_of_range, Panic}
use bolt_analysis.Node.{Inode, Node}
use bolt_analysis.Node as N
use bolt_analysis.Cursor.{key_value, Stack, bucket_leaf_flag}
use bolt_analysis.Cursor.Search.{seek_key}
use bolt_analysis.Bucket.{Bucket, page_node}
use bolt_analysis.Bucket.Nodes.{node, node_of, cursor_node, set_at}

abbrev pub max_key_size : ℕ
max_key_size = 32768

abbrev pub max_value_size : ℕ
max_value_size = 2147483646

-- `(flags & bucketLeafFlag) != 0` of what `seek` returns
unfoldable pub is_bucket : Option Inode → Bool
is_bucket none = false
is_bucket (some e) = has_flag e.flags bucket_leaf_flag

-- `bytes.Equal(key, k)`, a nil key being empty
unfoldable pub is_key : Bytes → Option Inode → Bool
is_key key none = equal key []
is_key key (some e) = equal key e.key

unfoldable pub value_of : Option Inode → Option Bytes
value_of none = none
value_of (some e) = some e.value

abbrev pub sought : Bucket → ℕ → Bytes → Result Panic (Stack × Option Inode)
sought b height key = seek_key (page_node b) b.tx_open height b.root key

-- `b.Get(key)`
unfoldable pub get : Bucket → ℕ → Bytes → Result Panic (Option Bytes)
unfolding is_bucket is_key value_of
get b height key = do
  (refs, item) ← sought b height key
  ok (if is_bucket item then none else if not (is_key key item) then none else value_of item)

-- What `Put` and `Delete` do to the node of the cursor.
unfoldable pub change :
    (Node → Result Panic Node) → ℕ × Bucket → Result Panic (Bucket × Option Error)
change f (id, b) = do
  n ← node_of id b
  n' ← f n
  ok (record b { nodes = set_at b.nodes id (some n') }, none)

unfoldable pub change_at :
    (Node → Result Panic Node) → Stack → Bucket → Result Panic (Bucket × Option Error)
unfolding change
change_at f refs b = cursor_node refs b >>= change f

-- `b.Put(key, value)`
unfoldable pub put : Bucket → ℕ → Bytes → Bytes → Result Panic (Bucket × Option Error)
unfolding is_bucket is_key
put b height key value =
    if not b.tx_open
    then ok (b, some tx_closed)
    else if not b.writable
    then ok (b, some tx_not_writable)
    else if length key == 0
    then ok (b, some key_required)
    else if ltb max_key_size (length key)
    then ok (b, some key_too_large)
    else if ltb max_value_size (length value)
    then ok (b, some value_too_large)
    else (sought b height key >>= λ (refs, item).
        if is_key key item && is_bucket item
        then ok (b, some incompatible_value)
        else change_at (N.put b.high key key value 0 0) refs b)

-- `b.Delete(key)`
unfoldable pub delete : Bucket → ℕ → Bytes → Result Panic (Bucket × Option Error)
unfolding is_bucket
delete b height key =
    if not b.tx_open
    then ok (b, some tx_closed)
    else if not b.writable
    then ok (b, some tx_not_writable)
    else (sought b height key >>= λ (refs, item).
        if is_bucket item
        then ok (b, some incompatible_value)
        else change_at (λ n. ok (N.del key n)) refs b)

-- The root node is loaded so that the bucket is written.
unfoldable pub with_root_node : Bucket → Result Panic Bucket
with_root_node b = elim b.root_node [ none ↦ node b.root none b | some id ↦ ok b ]

-- `b.SetSequence(v)`
unfoldable pub set_sequence : Bucket → ℕ → Result Panic (Bucket × Option Error)
set_sequence b v =
    if not b.tx_open
    then ok (b, some tx_closed)
    else if not b.writable
    then ok (b, some tx_not_writable)
    else (with_root_node b >>= λ b'. ok (record b' { sequence = v }, none))

-- `b.NextSequence()`
unfoldable pub next_sequence : Bucket → Result Panic (Bucket × ℕ × Option Error)
next_sequence b =
    if not b.tx_open
    then ok (b, 0, some tx_closed)
    else if not b.writable
    then ok (b, 0, some tx_not_writable)
    else (with_root_node b >>= λ b'.
        let v = (b'.sequence + 1) % 2 ^ 64 in ok (record b' { sequence = v }, v, none))

key_of : Option Inode → Bytes
key_of none = []
key_of (some e) = e.key

-- `c.Delete()` of a cursor of the bucket
unfoldable pub delete_current : Bucket → Stack → Result Panic (Bucket × Option Error)
unfolding is_bucket key_of
delete_current b [] =
    if not b.tx_open
    then ok (b, some tx_closed)
    else if not b.writable
    then ok (b, some tx_not_writable)
    else err index_out_of_range
delete_current b (r ∷ refs) =
    let item = key_value r in
    if not b.tx_open
    then ok (b, some tx_closed)
    else if not b.writable
    then ok (b, some tx_not_writable)
    else if is_bucket item
    then ok (b, some incompatible_value)
    else change_at (λ n. ok (N.del (key_of item) n)) (r ∷ refs) b

-- ===== src/Freelist/Disk.antt =====
-- freelist.go: `read`, `write`, `reload` and `reindex`, the freelist on its page.
pub mod RoundTrip
use bolt_analysis.Prelude.{
  ℕ, zero, suc, ◌+◌, Bool, true, false, List, [], ◌∷◌, ltb, ◌==◌, if◌then◌else◌, take, drop, get_or,
}
use Prim.Native.Nat.{bit_or}
use bolt_analysis.Prelude.Results.{Result, ok, err}
use bolt_analysis.Words.{u16_max}
use bolt_analysis.Panics.{Panic}
use bolt_analysis.GoSort.{sort}
use bolt_analysis.Page.{Page, freelist_page_flag}
use bolt_analysis.Freelist.{Freelist, count, copyall, mark_all}
use bolt_analysis.Freelist.TxMap.{pending_ids}

-- `f.reindex()`
unfoldable pub reindex : Freelist → Freelist
reindex f = record f { cache = mark_all (pending_ids f.pending) (mark_all f.ids (λ _. false)) }

-- The ids that `read` takes from a page: the slice `[idx:count]` of the words behind the header.
unfoldable pub page_ids : Page → List ℕ
page_ids p =
    let large = p.count == u16_max in
    let idx = if large then 1 else 0 in
    let count = if large then get_or p.words 0 0 else p.count in
    if count == 0 then [] else sort (drop idx (take count p.words))

-- `f.read(p)`
unfoldable pub read : Page → Freelist → Freelist
unfolding page_ids reindex
read p f = reindex (record f { ids = page_ids p })

with_words : Page → ℕ → Result Panic (List ℕ) → Result Panic Page
with_words p n (ok words) = ok (record p { count = n; words = words })
with_words p n (err e) = err e

behind : ℕ → Result Panic (List ℕ) → Result Panic (List ℕ)
behind n (ok words) = ok (n ∷ words)
behind n (err e) = err e

-- `f.write(p)`: the page afterwards. The words of `p` are all that lies behind its header.
unfoldable pub write : Freelist → Page → Result Panic Page
unfolding with_words behind
write f p =
    let q = record p { flags = bit_or p.flags freelist_page_flag } in
    let lenids = count f in
    if lenids == 0
    then ok (record q { count = 0 })
    else if ltb lenids u16_max
    then with_words q lenids (copyall f p.words)
    else with_words q u16_max (behind lenids (copyall f (drop 1 p.words)))

-- `if !pcache[id] { a = append(a, id) }`
pub available : (ℕ → Bool) → List ℕ → List ℕ
available pcache [] = []
available pcache (id ∷ ids) =
    let rest = available pcache ids in if pcache id then rest else id ∷ rest

-- `f.reload(p)`
unfoldable pub reload : Page → Freelist → Freelist
unfolding available read
reload p f =
    let g = read p f in
    let pcache = mark_all (pending_ids f.pending) (λ _. false) in
    reindex (record g { ids = available pcache g.ids })

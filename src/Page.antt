-- ===== src/Page.antt =====
-- page.go: the page header and the kinds of pages. A page is the memory behind a `*page`: its
-- header, and the array of page ids that starts at `ptr` when it is read as a freelist.
pub mod Elements
use bolt_analysis.Prelude.{ℕ, List, Bool, ◌==◌, not, if◌then◌else◌}
use Prim.Native.Nat.{bit_and}

abbrev pub page_header_size : ℕ
page_header_size = 16

abbrev pub branch_page_flag : ℕ
branch_page_flag = 0x01

abbrev pub leaf_page_flag : ℕ
leaf_page_flag = 0x02

abbrev pub meta_page_flag : ℕ
meta_page_flag = 0x04

abbrev pub freelist_page_flag : ℕ
freelist_page_flag = 0x10

pub record Page : Type 0 where
  pub id : ℕ
  pub flags : ℕ
  pub count : ℕ
  pub overflow : ℕ
  pub words : List ℕ

-- `p.flags & flag != 0`
abbrev pub has_flag : ℕ → ℕ → Bool
has_flag flags flag = not (bit_and flags flag == 0)

pub data PageType : Type 0 where
  branch leaf meta freelist : PageType
  unknown : ℕ → PageType

-- `p.typ()`; the text is printed from the constructor.
unfoldable pub typ : Page → PageType
typ p =
    if has_flag p.flags branch_page_flag
    then branch
    else if has_flag p.flags leaf_page_flag
    then leaf
    else if has_flag p.flags meta_page_flag
    then meta
    else if has_flag p.flags freelist_page_flag
    then freelist
    else unknown p.flags

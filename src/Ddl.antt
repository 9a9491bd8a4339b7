-- ===== src/Ddl.antt =====
-- ddl.c: a doubly-linked list, with a head that points to its first, last, current and selected node.
--
-- The nodes are a function from addresses to nodes; NULL is 0. An access through NULL is `fault`.
-- malloc() is a parameter: an insertion is given the address of the node and the copied data, or
-- nothing when a call fails. What free() releases is not reused. The counter wraps around at 2 ^ 64.
pub mod Chain
pub mod Append
pub mod Delete
pub mod Inner
pub mod Tests
use nt_shm.Common.{
  ℕ, zero, suc, ◌+◌, ◌-◌, ◌%◌, List, [], ◌∷◌, Bool, ◌==◌, ◌||◌, Option, none, some, if◌then◌else◌,
}
use nt_shm.Common.Run.{Run, ok, fault, out_of_fuel, ◌>>=◌}

pub record Node : Type 0 where
  pub content : ℕ
  pub next : ℕ
  pub prev : ℕ

pub record Ddlh : Type 0 where
  pub nodes : ℕ → Node
  pub entr : ℕ
  pub tail : ℕ
  pub curr : ℕ
  pub pos : ℕ
  pub num : ℕ

-- A head without nodes
unfoldable pub ddl_init : (ℕ → Node) → Ddlh
ddl_init nodes = record { nodes = nodes; entr = 0; tail = 0; curr = 0; pos = 0; num = 0 }

-- A store into the node at `p`
abbrev pub put : (ℕ → Node) → ℕ → Node → ℕ → Node
put nodes p n q = if p == q then n else nodes q

abbrev pub set_next : (ℕ → Node) → ℕ → ℕ → ℕ → Node
set_next nodes p next = put nodes p (record (nodes p) { next = next })

abbrev pub set_prev : (ℕ → Node) → ℕ → ℕ → ℕ → Node
set_prev nodes p prev = put nodes p (record (nodes p) { prev = prev })

-- The node `di` as the only one
abbrev pub single : Ddlh → ℕ → Ddlh
single dh di = record dh { entr = di; curr = di; pos = di; tail = di; num = 1 }

unfoldable pub ddl_insert_first : Ddlh → ℕ → Ddlh
ddl_insert_first dh di =
    let dp : ℕ = dh.entr in
    let longer : Ddlh = record dh { nodes = set_prev (set_next dh.nodes di dp) dp di; entr = di } in
    if dp == 0 then single dh di else longer

unfoldable pub ddl_insert_end : Ddlh → ℕ → Run Ddlh
ddl_insert_end dh di =
    let dp : ℕ = dh.curr in
    let longer : Ddlh = record dh {
      nodes = set_prev (set_next dh.nodes dp di) di dp;
      curr = di;
      num = (dh.num + 1) % 0x10000000000000000;
      tail = di;
    } in
    let append : Run Ddlh = if dp == 0 then fault else ok longer in
    if dh.entr == 0 then ok (single dh di) else append

-- The two calls of malloc() give the address of the node, and the copied data.
unfoldable pub ddl_insert : Ddlh → Option ℕ → Option ℕ → ℕ → Run Ddlh
ddl_insert dh none content flg = ok dh
ddl_insert dh (some di) none flg = ok dh
ddl_insert dh (some di) (some content) flg =
    let fresh : Ddlh = record dh {
      nodes = put dh.nodes di (record { content = content; next = 0; prev = 0 });
    } in
    if flg == 1
    then ddl_insert_end fresh di
    else if flg == 0
    then ok (ddl_insert_first fresh di)
    else ok fresh

-- What happens at the node `di` behind `tp`
unfoldable pub unlink : Ddlh → ℕ → ℕ → Ddlh
unlink dh tp di =
    let next : ℕ = (dh.nodes di).next in
    let n1 : ℕ → Node = set_next dh.nodes tp next in
    let last : Bool = next == 0 in
    let keep : Ddlh = record dh {
      num = (dh.num + 0xffffffffffffffff) % 0x10000000000000000;
      curr = if di == dh.curr then next else dh.curr;
      pos = if di == dh.pos then tp else dh.pos;
      nodes = n1;
    } in
    if last then record keep { tail = tp } else record keep { nodes = set_prev n1 next tp }

-- The search of ddl_delete() from the node `dp` behind `tp`
unfoldable pub delete_from : ℕ → Ddlh → ℕ → ℕ → ℕ → Run Ddlh
delete_from zero dh di tp dp = out_of_fuel
delete_from (suc fuel) dh di tp dp =
    let rest : Run Ddlh = delete_from fuel dh di dp (dh.nodes dp).next in
    if dp == 0 then ok dh else if dp == di then ok (unlink dh tp di) else rest

unfoldable pub ddl_delete : ℕ → Ddlh → ℕ → Run Ddlh
ddl_delete fuel dh di =
    let tp : ℕ = dh.entr in
    let rest : Run Ddlh = delete_from fuel dh di tp (dh.nodes tp).next in
    if (tp == 0) || (di == 0)
    then ok dh
    else if tp == di
    then ok (record dh { curr = 0; pos = 0; entr = 0; tail = 0; num = 0 })
    else rest

-- ddl_positive_iterator() and ddl_reverse_iterator() from a node: the data that they print
unfoldable pub print_next : ℕ → (ℕ → Node) → ℕ → Run (List ℕ)
print_next zero nodes dp = out_of_fuel
print_next (suc fuel) nodes dp =
    let rest : Run (List ℕ) =
      print_next fuel nodes (nodes dp).next >>= λ printed. ok ((nodes dp).content ∷ printed) in
    if dp == 0 then ok [] else rest

unfoldable pub print_prev : ℕ → (ℕ → Node) → ℕ → Run (List ℕ)
print_prev zero nodes dp = out_of_fuel
print_prev (suc fuel) nodes dp =
    let rest : Run (List ℕ) =
      print_prev fuel nodes (nodes dp).prev >>= λ printed. ok ((nodes dp).content ∷ printed) in
    if dp == 0 then ok [] else rest

-- ddlctr
pub data Ddlctr : Type 0 where
  up dn : Ddlctr

-- The selected node after the step: `pos` itself when there is no node in the direction
unfoldable pub ddl_control : Ddlh → Ddlctr → Run (Ddlh × ℕ)
ddl_control dh up =
    let prev : ℕ = (dh.nodes dh.pos).prev in
    let moved : Run (Ddlh × ℕ) = ok (record dh { pos = prev }, prev) in
    let kept : Run (Ddlh × ℕ) = ok (dh, dh.pos) in
    if dh.pos == 0 then fault else if prev == 0 then kept else moved
ddl_control dh dn =
    let next : ℕ = (dh.nodes dh.pos).next in
    let moved : Run (Ddlh × ℕ) = ok (record dh { pos = next }, next) in
    let kept : Run (Ddlh × ℕ) = ok (dh, dh.pos) in
    if dh.pos == 0 then ok (dh, 0) else if next == 0 then kept else moved
